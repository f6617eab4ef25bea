-- ===== src/McpRoute/Stream.antt =====
-- kei/mcproute.py: `Client._read_sse`, the events of a stream. `decode`, and the JSON parser of texts,
-- are given from outside.
pub mod Events
use Prim.Native.Char.{Char, code}
use agentware.Prelude.{
  String, Bool, true, false, not, Option, none, some, List, [], ◌∷◌, ◌++◌, lookup, default,
  is_empty, nat_eq, strip, strip_prefix?, join, ◌==◌, if◌then◌else◌,
}
use agentware.Prelude.Value.{Value, null, dict, fields}
use agentware.Prelude.Exec.{Result, ok, raise, mcp_route_error}

-- `s.split("\n")`, from the line that is begun
abbrev pub with_char : Char → List String → List String
with_char c [] = []
with_char c (line ∷ lines) = String.◌∷◌ c line ∷ lines

unfoldable pub split_lines : String → List String
split_lines String.[] = "" ∷ []
split_lines (String.◌∷◌ c s) =
    let rest = split_lines s in if nat_eq (code c) 10 then "" ∷ rest else with_char c rest

-- the result in a message, if it is a response
abbrev pub response_in : Option Value → Option Value
response_in (some (dict fs)) = elim (default null (lookup "id" (fields fs))) [
  | null ↦ none
  | _ ↦ some (default null (lookup "result" (fields fs)))
]
response_in _ = none

-- `none` is a text that is not valid JSON.
module _ (loads : String → Option Value) where
  unfoldable pub read_lines : List String → (data_buf : List String) → Result Value
  read_lines [] data_buf = raise (mcp_route_error "mcp route: sse stream ended without a response")
  read_lines (line ∷ lines) data_buf =
      let stripped = strip line in
      elim (strip_prefix? "data:" stripped) [
        | some chunk ↦ read_lines lines (data_buf ++ strip chunk ∷ [])
        | none ↦
            if stripped == ""
            then elim data_buf [
              | [] ↦ read_lines lines []
              | chunk ∷ chunks ↦ elim (response_in (loads (join "" (chunk ∷ chunks)))) [
                | some result ↦ ok result
                | none ↦ read_lines lines []
              ]
            ]
            else read_lines lines data_buf
      ]

  unfoldable pub read_sse : (String → String) → String → Result Value
  unfolding read_lines split_lines
  read_sse decode body = read_lines (split_lines (decode body)) []
