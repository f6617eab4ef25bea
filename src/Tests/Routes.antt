-- ===== src/Tests/Routes.antt =====
-- A call of the MCP route over a socket, and responses of it.
use agentware.Prelude.{
  lookup, ℕ, String, ◌≡◌, ◌≢◌, refl, none, some, [], ◌∷◌, true, false, All, map,
}
use agentware.Prelude.Value.{Value, null, int, pos, str, object}
use agentware.Prelude.Exec.{ok}
use agentware.McpRoute.{loaded}
use agentware.McpRoute.Stream.{read_sse, split_lines}
use agentware.McpRoute.Stream.Events.{events, first_response, line_of, read_sse-first_response}
use agentware.McpRoute.Transport.{Response, socket, answered, failed, connect, Outside, Client}
use agentware.McpRoute.Transport.Local.{logging, IsAllowed}
use agentware.McpRoute.Client.{Decoders, Call, call, read_response}
use agentware.McpRoute.Client.Answers.{IsAnswer, call-IsAllowed, read_response-IsAnswer}
use agentware.Tests.Fixtures.{plain_python}

abbrev reply : Response
reply = record { status_code = 200; content_type = "application/json"; content = "{}" }

-- the socket refuses, and the first port answers
abbrev out : Outside ℕ
out = record {
  post = λ target req n.
      ((elim target [ socket path ↦ failed (connect "refused") | _ ↦ answered reply ]), n);
  lstat = λ n path. some (record { is_socket = true; uid = 0; mode = 49536 });
  own_uid = some 1000;
  loopback = λ host. none;
  parse_url = λ url. ok (url, "http");
  environ = λ n. ("KEI_MCP_ROUTE_KEY", "k") ∷ ("KEI_RUNTIME_SOCKET_PATH", "/run/kei.sock") ∷ [];
  now = λ n. 5;
  quote = λ s. s;
}

abbrev client : Client
client = record {
  slug = "github";
  base_url = "";
  socket_path = none;
  env = none;
  has_transport = false;
}

abbrev list_call : Call
list_call = record { method = "tools/list"; tool_name = ""; params = null }

abbrev event_text : String
event_text = "data: {}\n\n"

abbrev message : Value
message = object (("id", int (pos 5)) ∷ ("result", str "done") ∷ [])

abbrev decoders : Decoders
decoders = record {
  loads = λ raw. loaded message;
  loads_text = λ text. some message;
  decode = λ raw. raw;
}

call-IsAllowed_example :
    All
      (IsAllowed out client 0)
      (call plain_python decoders (logging out) client list_call (0, [])).1.1
call-IsAllowed_example = call-IsAllowed plain_python decoders out client list_call 0 [] tt

read_response-IsAnswer_example :
    (reply.status_code ≢ 401)
    × (reply.status_code ≢ 403)
    × IsAnswer plain_python decoders reply (str "done")
unfolding read_response lookup
read_response-IsAnswer_example =
    read_response-IsAnswer plain_python decoders reply (str "done") refl

read_sse-first_response_example :
    read_sse decoders.loads_text decoders.decode event_text
    ≡ first_response decoders.loads_text (events [] (map line_of (split_lines event_text)))
read_sse-first_response_example =
    read_sse-first_response decoders.loads_text decoders.decode event_text
