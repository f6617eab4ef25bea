-- ===== src/McpRoute/Stream/Events.antt =====
-- What a stream is read as: its events, and the first of them that is a response.
use agentware.Prelude.{
  map, String, ◌≡◌, refl, Bool, true, false, Option, none, some, List, [], ◌∷◌, ◌++◌, strip,
  strip_prefix?, join, ◌==◌, if◌then◌else◌,
}
use agentware.Prelude.Value.{Value}
use agentware.Prelude.Exec.{Result, ok, raise, mcp_route_error}
use agentware.McpRoute.Stream.{response_in, read_lines, read_sse, split_lines}

-- a line of a stream
pub data Line : Type 0 where
  chunk : String → Line
  blank : Line
  ignored : Line

abbrev pub line_of : String → Line
line_of text = elim (strip_prefix? "data:" (strip text)) [
  | some rest ↦ chunk (strip rest)
  | none ↦ if strip text == "" then blank else ignored
]

-- The texts of the events: the chunks between two blank lines, put together. Chunks that no blank
-- line follows are no event.
abbrev event : List String → List String → List String
event [] rest = rest
event (c ∷ cs) rest = join "" (c ∷ cs) ∷ rest

pub events : List String → List Line → List String
events begun [] = []
events begun (chunk c ∷ lines) = events (begun ++ c ∷ []) lines
events begun (blank ∷ lines) = event begun (events [] lines)
events begun (ignored ∷ lines) = events begun lines

module _ (loads : String → Option Value) where
  pub first_response : List String → Result Value
  first_response [] = raise (mcp_route_error "mcp route: sse stream ended without a response")
  first_response (e ∷ es) = elim (response_in (loads e)) [
    | some result ↦ ok result
    | none ↦ first_response es
  ]

  read_lines-eq :
      (lines begun : List String)
      → read_lines loads lines begun ≡ first_response (events begun (map line_of lines))
  unfolding read_lines first_response events
  read_lines-eq [] begun = refl
  read_lines-eq (line ∷ lines) begun =
      by_line (strip_prefix? "data:" (strip line)) (strip line == "") begun (read_lines-eq lines)
    where
      Reads : Type 0
      Reads =
          (begun : List String)
          → read_lines loads lines begun ≡ first_response (events begun (map line_of lines))

      by_response :
          (o : Option Value)
          → Reads
          → (elim o as (λ _. Result Value) [
            | some result ↦ ok result
            | none ↦ read_lines loads lines []
          ])
            ≡ (elim o as (λ _. Result Value) [
              | some result ↦ ok result
              | none ↦ first_response (events [] (map line_of lines))
            ])
      by_response (some result) ih = refl
      by_response none ih = ih []

      by_event :
          (begun : List String)
          → Reads
          → (elim begun as (λ _. Result Value) [
            | [] ↦ read_lines loads lines []
            | c ∷ cs ↦ elim (response_in (loads (join "" (c ∷ cs)))) as (λ _. Result Value) [
              | some result ↦ ok result
              | none ↦ read_lines loads lines []
            ]
          ])
            ≡ first_response (event begun (events [] (map line_of lines)))
      by_event [] ih = ih []
      by_event (c ∷ cs) ih = by_response (response_in (loads (join "" (c ∷ cs)))) ih

      by_line :
          (o : Option String) (b : Bool) (begun : List String)
          → Reads
          → (elim o as (λ _. Result Value) [
            | some rest ↦ read_lines loads lines (begun ++ strip rest ∷ [])
            | none ↦
                if b
                then elim begun as (λ _. Result Value) [
                  | [] ↦ read_lines loads lines []
                  | c ∷ cs ↦ elim (response_in (loads (join "" (c ∷ cs)))) as (λ _. Result Value) [
                    | some result ↦ ok result
                    | none ↦ read_lines loads lines []
                  ]
                ]
                else read_lines loads lines begun
          ])
            ≡ first_response (
                events begun (
                  (elim o as (λ _. Line) [
                    | some rest ↦ chunk (strip rest)
                    | none ↦ if b then blank else ignored
                  ])
                  ∷ map line_of lines))
      by_line (some rest) b begun ih = ih (begun ++ strip rest ∷ [])
      by_line none true begun ih = by_event begun ih
      by_line none false begun ih = ih begun

  -- Reading a stream gives the result of its first event that is a JSON object with an id that is
  -- not null, and an error where there is none. The events are the texts that the `data:` lines
  -- between two blank lines make together; other lines are passed over.
  pub read_sse-first_response :
      (decode : String → String) (body : String)
      → read_sse loads decode body
        ≡ first_response (events [] (map line_of (split_lines (decode body))))
  unfolding read_sse
  read_sse-first_response decode body = read_lines-eq (split_lines (decode body)) []
