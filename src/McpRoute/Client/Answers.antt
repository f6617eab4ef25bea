-- ===== src/McpRoute/Client/Answers.antt =====
-- When a call of the MCP route returns, and which targets it hands its request to.
use agentware.Prelude.{
  ◌≤◌, String, ◌≡◌, ◌≢◌, ◌⊎◌, inl, inr, refl, arith, Bool, true, false, Option, none, some, List,
  All, lookup, contains, text_take, nat_eq, default, ◌==◌, if_ind,
}
use agentware.Prelude.Value.{Value, null, dict, fields}
use agentware.Prelude.Python.{Python}
use agentware.Prelude.Exec.{Result, ok, raise, mcp_route_error, lift, continue, ◌>>=◌}
use agentware.McpRoute.{Loaded, loaded, invalid, undecodable, get}
use agentware.McpRoute.Stream.{read_sse}
use agentware.McpRoute.Transport
use agentware.McpRoute.Transport.{Response, Target, Outside, send, source}
use agentware.McpRoute.Transport.Local.{logging, IsAllowed, send-All}
use agentware.McpRoute.Client.{
  Decoders, Call, call, request, read_response, decode_envelope, decode_error, is_success,
  max_response_bytes, route_key_env,
}

module _ (py : Python) (dec : Decoders) where
  -- What the envelope of a body says: it is an object without an error, and this is its result.
  abbrev pub IsResultIn : Loaded → Value → Type 0
  IsResultIn (loaded (dict fs)) v =
      (lookup "error" (fields fs) ≡ none) × (v ≡ get "result" null (fields fs))
  IsResultIn _ v = ⊥

  -- What a result is read from: an event of a stream, or the body of a successful response.
  abbrev pub IsAnswer : Response → Value → Type 0
  IsAnswer response v =
      ((contains "text/event-stream" response.content_type ≡ true)
        × (read_sse dec.loads_text dec.decode response.content ≡ ok v))
      ⊎ ((200 ≤ response.status_code)
          × (response.status_code ≤ 299)
          × IsResultIn (dec.loads (text_take max_response_bytes response.content)) v)

  IsResultIn-decode_envelope :
      (l : Loaded) (v : Value) → decode_envelope py dec l ≡ ok v → IsResultIn l v
  IsResultIn-decode_envelope invalid v h = cc h
  IsResultIn-decode_envelope (undecodable text) v h = cc h
  IsResultIn-decode_envelope (loaded (dict fs)) v h = go (lookup "error" (fields fs)) refl h
    where
      go :
          (o : Option Value)
          → lookup "error" (fields fs) ≡ o
          → (elim o as (λ _. Result Value) [
            | some err ↦ raise (decode_error py dec err)
            | none ↦ ok (get "result" null (fields fs))
          ])
            ≡ ok v
          → IsResultIn (loaded (dict fs)) v
      go none e h = (e, cc h)
      go (some err) e h = cc h
  IsResultIn-decode_envelope (loaded _) v h = cc h

  -- A response becomes a result only if its status is neither 401 nor 403, and if either it is a
  -- stream, and the result is that of an event, or its status is from 200 to 299 and what the JSON
  -- parser makes of its body, up to the limit, is an object without an error, whose result it is.
  pub read_response-IsAnswer :
      (response : Response) (v : Value)
      → read_response py dec response ≡ ok v
      → (response.status_code ≢ 401) × (response.status_code ≢ 403) × IsAnswer response v
  unfolding read_response
  read_response-IsAnswer response v =
      if_ind IsRead (nat_eq response.status_code 401) (λ _ h. cc h)
        (λ a.
          if_ind IsRead (nat_eq response.status_code 403) (λ _ h. cc h)
            (λ b.
              if_ind IsRead (contains "text/event-stream" response.content_type)
                (λ e h. (λ k. ground arith, λ k. ground arith, inl (e, h)))
                (λ _.
                  if_ind IsRead (is_success response.status_code)
                    (λ s h. (
                      λ k. ground arith,
                      λ k. ground arith,
                      inr (
                        ground arith,
                        ground arith,
                        IsResultIn-decode_envelope
                            (dec.loads (text_take max_response_bytes response.content)) v h,
                      ),
                    ))
                    (λ _ h. cc h))))
    where
      IsRead : Result Value → Type 0
      IsRead r =
          r ≡ ok v
          → (response.status_code ≢ 401) × (response.status_code ≢ 403) × IsAnswer response v

module _ {ℓ} {W : Type ℓ} (py : Python) (dec : Decoders) (out : Outside W)
    (c : Transport.Client) where
  -- A call hands its request to no target but these: the injected transport, if the client has
  -- one; the base URL without its last slashes, if the host of the base URL is empty or a loopback
  -- address or its scheme is `unix`; the configured socket, if it passed validation; and the two
  -- URLs of port 8080 that the code writes for 127.0.0.1 and for ::1. What httpx reaches from a
  -- target, through a proxy of the environment or otherwise, is not stated.
  pub call-IsAllowed :
      (q : Call) (w : W) (log : List Target)
      → All (IsAllowed out c w) log
      → All (IsAllowed out c w) (call py dec (logging out) c q (w, log)).1.1
  unfolding call
  call-IsAllowed q w log h = go (default "" (lookup route_key_env (source out c w)) == "")
    where
      key : String
      key = default "" (lookup route_key_env (source out c w))

      kept :
          (r : Result Response) (s : W × List Target)
          → All (IsAllowed out c w) s.1
          → All
              (IsAllowed out c w)
              (continue {W = W × List Target} {B = Value} r
                (λ response. lift (read_response py dec response))
                s).1.1
      kept (ok response) s h = h
      kept (raise error) s h = h

      go :
          (b : Bool)
          → All
              (IsAllowed out c w)
              (elim b as (λ _. Result Value × (W × List Target)) [
                | true ↦
                    (raise (mcp_route_error "mcp route: KEI_MCP_ROUTE_KEY is not set"), (w, log))
                | false ↦
                    (send (logging out) c (request py dec (logging out) c key q (w, log))
                        >>= λ response. lift (read_response py dec response))
                      (w, log)
              ]).1.1
      go true = h
      go false =
          let req = request py dec (logging out) c key q (w, log) in
          kept (send (logging out) c req (w, log)).0 (send (logging out) c req (w, log)).1
            (send-All out c w log req h)
