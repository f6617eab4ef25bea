-- ===== src/McpRoute/Transport/Local.antt =====
-- Which targets the client of the MCP route hands a request to.
use agentware.Prelude.{
  String, ◌≡◌, ◌⊎◌, inl, inr, refl, arith, Bool, true, false, not, ◌&&◌, Option, none, some, List,
  [], ◌∷◌, All, Bool-cases, default, ◌==◌, eq_iff, if_ind,
}
use agentware.Prelude.Exec.{Result, ok, raise, Exec, continue, other, throw, route_not_local}
use agentware.McpRoute.Transport.{
  Response, Target, injected, base, socket, loopback_url, at_port, Posted, answered, failed,
  Failure, Request, Outside, Client, rstrip_slash, retried, failure_text, validate_socket,
  socket_path, is_loopback, is_remote, post_direct, discover, targets, send_base, send,
}

-- the world outside, with a log of the targets that were asked, newest first
abbrev pub logging {ℓ} : {W : Type ℓ} → Outside W → Outside (W × List Target)
logging out = record {
  post = λ target req s. let (posted, w') = out.post target req s.0 in (posted, (w', target ∷ s.1));
  lstat = λ s path. out.lstat s.0 path;
  own_uid = out.own_uid;
  loopback = out.loopback;
  parse_url = out.parse_url;
  environ = λ s. out.environ s.0;
  now = λ s. out.now s.0;
  quote = out.quote;
}

-- A URL without a host, of a loopback address, or of a Unix socket.
abbrev pub IsAllowedUrl {ℓ} : {W : Type ℓ} → Outside W → String × String → Type 0
IsAllowedUrl out (host, scheme) = (host ≡ "") ⊎ (out.loopback host ≡ some true) ⊎ (scheme ≡ "unix")

-- The targets that the code allows, for a client in this world.
abbrev pub IsAllowed {ℓ} : {W : Type ℓ} → Outside W → Client → W → Target → Type 0
IsAllowed out c w injected = c.has_transport ≡ true
IsAllowed out c w (base url) =
    (url ≡ rstrip_slash c.base_url)
    × ((parsed : String × String) × (out.parse_url c.base_url ≡ ok parsed)
        × IsAllowedUrl out parsed)
IsAllowed out c w (socket path) = (path ≡ socket_path out c w) × (validate_socket out w path ≡ true)
IsAllowed out c w (loopback_url url) = (url ≡ "http://127.0.0.1:8080") ⊎ (url ≡ "http://::1:8080")

module _ {ℓ} {W : Type ℓ} (out : Outside W) (P : Target → Type 0) where
  discover-All :
      (todo : List Target) (last_error : Option String) (req : Request) (w : W) (log : List Target)
      → All P todo
      → All P log
      → All P (discover (logging out) todo last_error req (w, log)).1.1
  unfolding discover
  discover-All [] last_error req w log h k = k
  discover-All (target ∷ todo) last_error req w log (t, h) k =
      let (posted, w') = out.post target req w in
      go posted w' (λ text. discover-All todo (some text) req w' (target ∷ log) h (t, k))
    where
      next :
          (o : Option String) (failure : Failure) (w' : W)
          → ((text : String)
              → All P (discover (logging out) todo (some text) req (w', target ∷ log)).1.1)
          → All P
              (elim o as (λ _. Result Response × (W × List Target)) [
                | some text ↦ discover (logging out) todo (some text) req (w', target ∷ log)
                | none ↦ (raise (other (failure_text failure)), (w', target ∷ log))
              ]).1.1
      next none failure w' again = (t, k)
      next (some text) failure w' again = again text

      go :
          (posted : Posted) (w' : W)
          → ((text : String)
              → All P (discover (logging out) todo (some text) req (w', target ∷ log)).1.1)
          → All P
              (elim posted as (λ _. Result Response × (W × List Target)) [
                | answered response ↦ (ok response, (w', target ∷ log))
                | failed failure ↦
                    elim (retried failure) as (λ _. Result Response × (W × List Target)) [
                      | some text ↦ discover (logging out) todo (some text) req (w', target ∷ log)
                      | none ↦ (raise (other (failure_text failure)), (w', target ∷ log))
                    ]
              ]).1.1
      go (answered response) w' again = (t, k)
      go (failed failure) w' again = next (retried failure) failure w' again

module _ {ℓ} {W : Type ℓ} (out : Outside W) (c : Client) (w : W) (log : List Target) where
  hosts-All : All (IsAllowed out c w) (at_port "127.0.0.1" ∷ at_port "::1" ∷ [])
  hosts-All = (inl refl, (inr refl, tt))

  targets-All : All (IsAllowed out c w) (targets (logging out) c (w, log))
  unfolding targets
  targets-All =
      if_ind {A = List Target} (All (IsAllowed out c w))
        (not (socket_path out c w == "") && validate_socket out w (socket_path out c w))
        (λ e. ((refl, ground arith), hosts-All)) (λ _. hosts-All)

  url-IsAllowed :
      (url : String × String) → is_remote (logging out) url ≡ false → IsAllowedUrl out url
  unfolding is_loopback
  url-IsAllowed (host, scheme) h = elim (Bool-cases (default false (out.loopback host))) [
    | inl e ↦ inr (inl (ground arith))
    | inr e ↦ ground (arith, eq_iff host "", eq_iff scheme "unix")
  ]

  post_direct-All :
      (target : Target) (req : Request)
      → IsAllowed out c w target
      → All (IsAllowed out c w) log
      → All (IsAllowed out c w) (post_direct (logging out) target req (w, log)).1.1
  post_direct-All target req t h = (t, h)

  send_base-All :
      (req : Request)
      → All (IsAllowed out c w) log
      → All (IsAllowed out c w) (send_base (logging out) c req (w, log)).1.1
  send_base-All req h = go (out.parse_url c.base_url) refl
    where
      chosen :
          (url : String × String) (b : Bool)
          → out.parse_url c.base_url ≡ ok url
          → is_remote (logging out) url ≡ b
          → All
              (IsAllowed out c w)
              ((elim b as (λ _. Exec (W × List Target) Response) [
                | true ↦
                    throw (route_not_local "mcp route: the route host is not a loopback address")
                | false ↦ post_direct (logging out) (base (rstrip_slash c.base_url)) req
              ])
                (w, log)).1.1
      chosen url true e k = h
      chosen url false e k = ((refl, (url, e, url-IsAllowed url k)), h)

      go :
          (r : Result (String × String))
          → out.parse_url c.base_url ≡ r
          → All
              (IsAllowed out c w)
              (continue {W = W × List Target} {B = Response} r
                (λ url. elim (is_remote (logging out) url) [
                  | true ↦
                      throw (route_not_local "mcp route: the route host is not a loopback address")
                  | false ↦ post_direct (logging out) (base (rstrip_slash c.base_url)) req
                ])
                (w, log)).1.1
      go (raise error) e = h
      go (ok url) e = chosen url (is_remote (logging out) url) e refl

  pub send-All :
      (req : Request)
      → All (IsAllowed out c w) log
      → All (IsAllowed out c w) (send (logging out) c req (w, log)).1.1
  unfolding send
  send-All req h = go c.has_transport refl (c.base_url == "")
    where
      go :
          (b : Bool)
          → c.has_transport ≡ b
          → (no_url : Bool)
          → All
              (IsAllowed out c w)
              (elim b as (λ _. Result Response × (W × List Target)) [
                | true ↦ post_direct (logging out) injected req (w, log)
                | false ↦ elim no_url as (λ _. Result Response × (W × List Target)) [
                  | true ↦
                      discover (logging out) (targets (logging out) c (w, log)) none req (w, log)
                  | false ↦ send_base (logging out) c req (w, log)
                ]
              ]).1.1
      go true e no_url = (e, h)
      go false e true =
          discover-All out (IsAllowed out c w) (targets (logging out) c (w, log)) none req w log
            targets-All h
      go false e false = send_base-All req h
