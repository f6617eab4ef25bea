-- ===== src/McpRoute.antt =====
-- python/src/haikeilabs/agentware/kei/mcproute.py: the client of the MCP route of kei-proxy. Here the
-- errors and the results that it reads out of JSON. Bytes are texts of code points below 256.
pub mod Stream
pub mod Transport
pub mod Client
use agentware.Prelude.{
  ℕ, String, Bool, true, false, not, ◌&&◌, ◌||◌, Option, none, some, List, [], ◌∷◌, Dict, lookup,
  default, nat_eq, ◌==◌, if◌then◌else◌,
}
use agentware.Prelude.Value.{
  Value, ℤ, pos, negsuc, null, bool, int, float, str, list, dict, items, fields, object, truthy,
  nil,
}
use agentware.Prelude.Python.{Python}
use agentware.Prelude.Exec.{
  Result, ok, raise, Error, type_error, attribute_error, other, route_error, RouteClass, route,
  session_ended, policy_denied, manifest_drift, upstream, header_mismatch,
}

-- What `json.loads` does: `invalid` is `JSONDecodeError`, and `undecodable` any other error, as for
-- bytes that are no text.
pub data Loaded : Type 0 where
  loaded : Value → Loaded
  invalid : Loaded
  undecodable : String → Loaded

abbrev pub Loads : Type 0
Loads = String → Loaded

-- A key of `_CODE_MAP`, given by its distance below -1, against the value of a code; a float is equal
-- to the integer of its value.
abbrev pub is_code : ℕ → String → Value → Bool
is_code n text (int (negsuc m)) = nat_eq m n
is_code n text (float r) = r == text
is_code n text _ = false

-- `_CODE_MAP.get(code, RouteError)` of a code that can be a key
abbrev pub class_of : Value → RouteClass
class_of code =
    if is_code 31400 "-31401.0" code
    then session_ended
    else if is_code 31402 "-31403.0" code
    then policy_denied
    else if is_code 31408 "-31409.0" code
    then manifest_drift
    else if is_code 31501 "-31502.0" code
    then upstream
    else if is_code 32019 "-32020.0" code
    then header_mismatch
    else route

-- A code that is a list or a dictionary cannot be a key. The other arguments are those of the error.
unfoldable pub route_error_from_code : (code message reason decision_id : Value) → Error
route_error_from_code (list vs) message reason decision_id = type_error "unhashable type: 'list'"
route_error_from_code (dict fs) message reason decision_id = type_error "unhashable type: 'dict'"
route_error_from_code code message reason decision_id =
    route_error (class_of code) code message reason decision_id

-- `raw.get(key, fallback)`
abbrev pub get : String → Value → Dict Value → Value
get key fallback raw = default fallback (lookup key raw)

-- `v.get(key, "")` where `v` is an object, and `""` elsewhere
abbrev pub detail : String → Value → Value
detail key (dict fs) = get key (str "") (fields fs)
detail key _ = str ""

-- the error that an `error` object stands for
abbrev pub error_of : Dict Value → Error
error_of err =
    let details = get "data" null err in
    route_error_from_code (get "code" (int (pos 0)) err) (get "message" (str "") err)
      (detail "reason" details) (detail "decision_id" details)

-- `_parse_route_error`: the error to raise, or none
abbrev pub error_in : Option Value → Option Error
error_in (some (dict err)) = some (error_of (fields err))
error_in _ = none

abbrev pub error_in_loaded : Loaded → Option Error
error_in_loaded (loaded (dict body)) = error_in (lookup "error" (fields body))
error_in_loaded (undecodable text) = some (other text)
error_in_loaded _ = none

unfoldable pub parse_route_error : Loads → String → Option Error
parse_route_error loads raw = error_in_loaded (loads raw)

pub record ToolDescriptor : Type 0 where
  pub name : Value
  pub description : Value
  pub input_schema : Value

abbrev pub or_value : Value → Value → Value
or_value a b = if truthy a then a else b

-- `ToolDescriptor.from_dict`, which reads the keys of an object only
abbrev pub descriptor_of : Value → Result ToolDescriptor
descriptor_of (dict fs) =
    let d = fields fs in
    ok (record {
      name = get "name" (str "") d;
      description = get "description" (str "") d;
      input_schema =
          or_value (or_value (get "inputSchema" null d) (get "input_schema" (object []) d))
            (object []);
    })
descriptor_of _ = raise (attribute_error "object has no attribute 'get'")

-- `[ToolDescriptor.from_dict(t) for t in tools]`
unfoldable pub descriptors_of : List Value → Result (List ToolDescriptor)
descriptors_of [] = ok []
descriptors_of (v ∷ vs) = elim (descriptor_of v) [
  | raise e ↦ raise e
  | ok d ↦ elim (descriptors_of vs) [ raise e ↦ raise e | ok ds ↦ ok (d ∷ ds) ]
]

pub record ContentBlock : Type 0 where
  pub type : Value
  pub text : Value

pub record ToolResult : Type 0 where
  pub content : List ContentBlock
  pub is_error : Bool

module _ (py : Python) where
  abbrev pub block_of : Value → ContentBlock
  block_of (dict fs) = record {
    type = get "type" (str "") (fields fs);
    text = get "text" (str "") (fields fs);
  }
  block_of v = record { type = str "text"; text = str (py.to_text v) }

  unfoldable pub blocks_of : List Value → List ContentBlock
  blocks_of [] = []
  blocks_of (v ∷ vs) = block_of v ∷ blocks_of vs

  abbrev pub content_of : Value → List ContentBlock
  content_of (list vs) = blocks_of (items vs)
  content_of _ = []

  -- `ToolResult.from_dict`
  unfoldable pub result_from_dict : Dict Value → ToolResult
  result_from_dict d = record {
    content = content_of (get "content" (list nil) d);
    is_error = truthy (get "isError" (bool false) d);
  }
