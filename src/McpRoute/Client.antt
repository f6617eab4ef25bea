-- ===== src/McpRoute/Client.antt =====
-- kei/mcproute.py: `Client.call`, `list_tools` and `call_tool`.
pub mod Answers
use agentware.Prelude.{
  ℕ, String, Bool, true, false, not, ◌&&◌, ◌||◌, Option, none, some, List, [], ◌∷◌, ◌++◌, Dict,
  lookup, default, nat_eq, ltb, contains, text_take, is_empty, ◌<+>◌, ◌==◌, if◌then◌else◌,
}
use agentware.Prelude.Value.{
  Value, null, int, pos, negsuc, nil, str, list, dict, items, fields, object,
}
use agentware.Prelude.Python.{Python}
use agentware.Prelude.Exec.{
  Exec, Result, ok, raise, Error, throw, lift, pure, ◌>>=◌, mcp_route_error, route_error, route,
  session_ended, other,
}
use agentware.McpRoute.{
  Loads, Loaded, loaded, invalid, undecodable, error_of, parse_route_error, ToolDescriptor,
  descriptors_of, ToolResult, result_from_dict, get,
}
use agentware.McpRoute.Stream.{read_sse}
use agentware.McpRoute.Transport
use agentware.McpRoute.Transport.{Response, Request, Outside, send, source}

abbrev pub route_key_env : String
route_key_env = "KEI_MCP_ROUTE_KEY"

abbrev pub max_response_bytes : ℕ
max_response_bytes = 8388608

-- the two parsers of JSON and the decoder of bytes
pub record Decoders : Type 0 where
  pub loads : Loads
  pub loads_text : String → Option Value
  pub decode : String → String

-- a call of the route
pub record Call : Type 0 where
  pub method : String
  pub tool_name : String
  pub params : Value

-- the error in the body, or another one
abbrev pub error_or : Error → Option Error → Error
error_or e none = e
error_or e (some found) = found

abbrev pub is_success : ℕ → Bool
is_success status = not (ltb status 200 || ltb 299 status)

module _ (py : Python) (dec : Decoders) where
  abbrev pub http_error : ℕ → Error
  http_error status = mcp_route_error ("mcp route: HTTP " <+> py.to_text (int (pos status)))

  abbrev pub session_error : Error
  session_error =
      route_error session_ended (int (negsuc 31400))
        (str "session ended — the route key expired or was revoked") (str "") (str "")

  -- the envelope of a response with a status from 200 to 299
  abbrev pub decode_error : Value → Error
  decode_error (dict err) = error_of (fields err)
  decode_error err = route_error route (int (pos 0)) (str (py.to_text err)) (str "") (str "")

  abbrev pub decode_object : Dict Value → Result Value
  decode_object rpc = elim (lookup "error" rpc) [
    | some err ↦ raise (decode_error err)
    | none ↦ ok (get "result" null rpc)
  ]

  abbrev pub decode_envelope : Loaded → Result Value
  decode_envelope invalid = raise (mcp_route_error "mcp route: decode response: invalid JSON")
  decode_envelope (undecodable text) = raise (other text)
  decode_envelope (loaded (dict rpc)) = decode_object (fields rpc)
  decode_envelope (loaded _) =
      raise (mcp_route_error "mcp route: decode response: not a JSON object")

  -- what a response means, without the calls that got it
  unfoldable pub read_response : Response → Result Value
  unfolding parse_route_error read_sse
  read_response response =
      if nat_eq response.status_code 401
      then raise (error_or session_error (parse_route_error dec.loads response.content))
      else if nat_eq response.status_code 403
      then raise (
          error_or (http_error response.status_code) (parse_route_error dec.loads response.content))
      else if contains "text/event-stream" response.content_type
      then read_sse dec.loads_text dec.decode response.content
      else let raw = text_take max_response_bytes response.content in
        if is_success response.status_code
        then decode_envelope (dec.loads raw)
        else raise (error_or (http_error response.status_code) (parse_route_error dec.loads raw))

  abbrev pub tools_in : Value → Result (List ToolDescriptor)
  tools_in (list vs) = descriptors_of (items vs)
  tools_in _ = raise (mcp_route_error "mcp route: decode tools/list result: expected a tools array")

  abbrev pub tools_of : Value → Result (List ToolDescriptor)
  tools_of (dict result) = tools_in (get "tools" (list nil) (fields result))
  tools_of _ = raise (mcp_route_error "mcp route: decode tools/list result: expected an object")

  abbrev pub tool_result_of : Value → Result ToolResult
  tool_result_of (dict result) = ok (result_from_dict py (fields result))
  tool_result_of _ =
      raise (mcp_route_error "mcp route: decode tools/call result: expected an object")

  module _ {ℓ} {W : Type ℓ} (out : Outside W) (c : Transport.Client) where
    abbrev pub headers : String → Call → Dict String
    headers key q =
        ("Authorization", "Bearer " <+> key)
        ∷ ("Content-Type", "application/json")
        ∷ ("MCP-Protocol-Version", "2026-07-28")
        ∷ ("Mcp-Method", q.method)
        ∷ (if q.tool_name == "" then [] else ("Mcp-Name", q.tool_name) ∷ [])

    abbrev pub request : String → Call → W → Request
    request key q w = record {
      url_path = "/mcp/" <+> out.quote c.slug;
      headers = headers key q;
      body = object (
          ("jsonrpc", str "2.0")
          ∷ ("id", int (pos (out.now w)))
          ∷ ("method", str q.method)
          ∷ ("params", q.params)
          ∷ []);
    }

    unfoldable pub call : Call → Exec W Value
    call q w =
        let key = default "" (lookup route_key_env (source out c w)) in
        elim (key == "") [
          | true ↦ (raise (mcp_route_error "mcp route: KEI_MCP_ROUTE_KEY is not set"), w)
          | false ↦ (send out c (request key q w) >>= λ response. lift (read_response response)) w
        ]

    unfoldable pub list_tools : Exec W (List ToolDescriptor)
    list_tools =
        call (record { method = "tools/list"; tool_name = ""; params = null }) >>= λ result.
        lift (tools_of result)

    -- `params`, with the arguments where there are any
    abbrev pub tool_params : String → Dict Value → Value
    tool_params name args =
        object
          (("name", str name) ∷ (if is_empty args then [] else ("arguments", object args) ∷ []))

    unfoldable pub call_tool : String → Dict Value → Exec W ToolResult
    call_tool name args =
        call (record { method = "tools/call"; tool_name = name; params = tool_params name args })
        >>= λ result. lift (tool_result_of result)
