-- ===== src/Materialize/Endpoint/Selection.antt =====
-- Which route tools/materialize_apisix_runtime.py takes: exactly one endpoint of MCP for people.
use ouf_api_gateway.Base.{
  Bool, false, ◌&&◌, List, [], ◌∷◌, nat_eq, string_eq, Outcome, ok, raised, if◌then◌else◌,
}
use ouf_api_gateway.Document.{
  ◌>>=◌, Value, null, flag, integer, text, items, fields, ToolError, rejected, field, or_empty,
  is_text,
}

-- The comprehension's test of one route: a public endpoint of the protocol MCP.
unfoldable pub is_candidate : Value → Outcome ToolError Bool
is_candidate (fields fs) = do
  protocol ← field "x-ouf-protocol" (fields fs)
  name ← field "name" (or_empty protocol)
  labels ← if is_text "MCP" name then field "labels" (fields fs) else ok null
  exposure ← field "exposure" (or_empty labels)
  ok (is_text "MCP" name && is_text "public" exposure)
is_candidate null = ok false
is_candidate (flag b) = ok false
is_candidate (integer n) = ok false
is_candidate (text s) = ok false
is_candidate (items xs) = ok false

unfoldable pub candidates_of : List Value → Outcome ToolError (List Value)
unfolding is_candidate
candidates_of [] = ok []
candidates_of (r ∷ rs) = do
  wanted ← is_candidate r
  rest ← candidates_of rs
  ok (if wanted then r ∷ rest else rest)

-- Exactly one candidate
abbrev pub only : List Value → Outcome ToolError Value
only [] = raised (rejected "expected exactly one public MCP endpoint")
only (r ∷ []) = ok r
only (r ∷ s ∷ rs) = raised (rejected "expected exactly one public MCP endpoint")
