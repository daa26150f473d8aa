-- ===== src/Materialize.antt =====
-- The tools that turn compiled route bindings into APISIX routes: what tools/materialize_*.py share.
pub mod Guards
pub mod Workload
pub mod Internal
pub mod Human
pub mod Onboarding
pub mod Endpoint
mod Tests
use Prim.Native.String
use package.text.Mathlib.Text.{starts_with}
use ouf_api_gateway.Base.{
  ℕ, Bool, true, false, not, ◌&&◌, ◌||◌, Option, none, some, String, List, [], ◌∷◌, ◌==◌, nat_eq,
  string_eq, Outcome, ok, raised, if◌then◌else◌, leb, ltb, any, contains, forbid,
}
use ouf_api_gateway.Base.Int.{ℤ, pos, negsuc}
use ouf_api_gateway.Base.Text.{count_code, ends_with}
use ouf_api_gateway.Document.{
  ◌>>=◌, Value, null, flag, integer, text, items, fields, Fields, object, array, ToolError,
  rejected, type_error, field, text_of, items_of, integer_of, is_dict, truthy, or_empty, is_text,
  find, or_null, list_of,
}
use ouf_api_gateway.Document.Names.{strip}

abbrev pub nonblank : String → Option String → Outcome ToolError String
nonblank key none = raised (rejected key)
nonblank key (some s) = if strip s == "" then raised (rejected key) else ok (strip s)

-- `require_text(obj, key)`, which the later tools call `text`
unfoldable pub require_text : String → Value → Outcome ToolError String
require_text key obj = field key obj >>= λ v. nonblank key (text_of v)

-- `value.startswith(SECRET_REF_PREFIXES)`
abbrev pub is_secret_ref : String → Bool
is_secret_ref ref = starts_with ref "$ENV://" || starts_with ref "$secret://"

abbrev pub in_port_range : Option ℤ → Bool
in_port_range none = false
in_port_range (some (pos n)) = leb 1 n && leb n 65535
in_port_range (some (negsuc n)) = false

-- `isinstance(port, int)` and `1 <= port <= 65535`
abbrev pub is_port : Value → Bool
is_port v = in_port_range (integer_of v)

-- `methods[0] in {...}`: an unhashable entry is a `TypeError`.
abbrev pub is_among : List String → Value → Outcome ToolError Bool
is_among names (text s) = ok (contains names s)
is_among names null = ok false
is_among names (flag b) = ok false
is_among names (integer n) = ok false
is_among names (items xs) = raised type_error
is_among names (fields fs) = raised type_error

-- `isinstance(methods, list) and len(methods) == 1 and methods[0] in names`
abbrev pub is_one_of : List String → Option (List Value) → Outcome ToolError Bool
is_one_of names none = ok false
is_one_of names (some []) = ok false
is_one_of names (some (m ∷ [])) = is_among names m
is_one_of names (some (m ∷ n ∷ ms)) = ok false

abbrev pub as_nonempty : Option String → Option String
as_nonempty none = none
as_nonempty (some s) = if s == "" then none else some s

abbrev pub and_then : Option String → Option (List String) → Option (List String)
and_then none rest = none
and_then (some s) none = none
and_then (some s) (some rest) = some (s ∷ rest)

-- The texts of a list whose entries are all nonempty texts.
abbrev pub texts : List Value → Option (List String)
texts [] = some []
texts (v ∷ vs) = and_then (as_nonempty (text_of v)) (texts vs)

abbrev pub some_texts : Option (List String) → Option (List String)
some_texts none = none
some_texts (some []) = none
some_texts (some (s ∷ ss)) = some (s ∷ ss)

abbrev pub texts_of : Option (List Value) → Option (List String)
texts_of none = none
texts_of (some vs) = some_texts (texts vs)

abbrev pub given : Option (List String) → String → Outcome ToolError (List String)
given none message = raised (rejected message)
given (some ss) message = ok ss

-- `"*" in uri`
abbrev pub is_wildcard : String → Bool
is_wildcard uri = ltb 0 (count_code 42 uri)

-- `uri.endswith("/*") and uri.count("*") == 1 and backend_path == uri`
abbrev pub is_bounded : String → String → Bool
is_bounded uri backend_path = ends_with uri "/*" && count_code 42 uri == 1 && backend_path == uri

-- The name of a node, `f"{service}:{port}"`; `str` is Python's.
abbrev pub node_name : (Value → String) → String → Value → String
node_name str service port = String.◌++◌ service (String.◌++◌ ":" (str port))

abbrev pub or_object : Option Value → Value
or_object none = object []
or_object (some v) = v

-- `v.get(key, {})`
abbrev pub field_or_object : String → Value → Outcome ToolError Value
field_or_object key (fields fs) = ok (or_object (find key fs))
field_or_object key null = raised type_error
field_or_object key (flag b) = raised type_error
field_or_object key (integer n) = raised type_error
field_or_object key (text s) = raised type_error
field_or_object key (items xs) = raised type_error

-- `(route.get("plugins") or {}).get(key, {})`
abbrev pub plugin : String → Value → Outcome ToolError Value
plugin key route = field "plugins" route >>= λ plugins. field_or_object key (or_empty plugins)

abbrev pub later_or : Option Value → Option Value → Option Value
later_or none v = v
later_or (some w) v = some w

abbrev pub or_empty_list : Option Value → Value
or_empty_list none = array []
or_empty_list (some v) = v

-- `v.get(key, [])`
abbrev pub field_or_empty : String → Value → Outcome ToolError Value
field_or_empty key (fields fs) = ok (or_empty_list (find key fs))
field_or_empty key null = raised type_error
field_or_empty key (flag b) = raised type_error
field_or_empty key (integer n) = raised type_error
field_or_empty key (text s) = raised type_error
field_or_empty key (items xs) = raised type_error

-- The entries of a loop over the value; a text's and a dict's parts are no dicts, so none counts.
abbrev pub iterated : Value → Outcome ToolError (List Value)
iterated (items xs) = ok (list_of xs)
iterated (text s) = ok []
iterated (fields fs) = ok []
iterated null = raised type_error
iterated (flag b) = raised type_error
iterated (integer n) = raised type_error

abbrev pub has_id : String → Value → Bool
has_id id (fields fs) = is_text id (or_null (find "id" fs))
has_id id null = false
has_id id (flag b) = false
has_id id (integer n) = false
has_id id (text s) = false
has_id id (items xs) = false

-- `indexed.get(id)`: the last route of the id.
unfoldable pub indexed : String → List Value → Option Value
indexed id [] = none
indexed id (v ∷ vs) = later_or (indexed id vs) (if has_id id v then some v else none)

abbrev pub selected :
    String → Option Value → Outcome ToolError (List Value) → Outcome ToolError (List Value)
selected id none rest = raised (rejected "route not found")
selected id (some v) rest = rest >>= λ vs. ok (v ∷ vs)

unfoldable pub select_routes : List String → List Value → Outcome ToolError (List Value)
unfolding indexed
select_routes [] candidates = ok []
select_routes (id ∷ ids) candidates =
    selected id (indexed id candidates) (select_routes ids candidates)
