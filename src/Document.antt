-- ===== src/Document.antt =====
-- JSON documents as the tools read and write them, with Python's operations on them.
-- Numbers are integers: the documents of the program hold no others.
pub mod Names
pub mod Numbers
pub mod Steps
use ouf_api_gateway.Base.{
  refl, ◌≡◌, ℕ, Bool, true, false, ◌&&◌, Option, none, some, String, List, [], ◌∷◌, ◌==◌, string_eq,
  Outcome, ok, raised, if◌then◌else◌, nat_eq, ◌+◌, contains,
}
use ouf_api_gateway.Base.Int.{ℤ, pos, negsuc}

mutual
  pub data Value : Type 0 where
    null : Value
    flag : Bool → Value
    integer : ℤ → Value
    text : String → Value
    items : Values → Value
    fields : Fields → Value

  pub data Values : Type 0 where
    nil : Values
    cons : Value → Values → Values

  pub data Fields : Type 0 where
    end : Fields
    entry : String → Value → Fields → Fields

-- What the tools raise of their own, and an operation on a value of another type.
pub data ToolError : Type 0 where
  rejected : String → ToolError
  type_error : ToolError

infixl 5 ◌>>=◌
unfoldable pub ◌>>=◌ :
    {A B : Type 0} → Outcome ToolError A → (A → Outcome ToolError B) → Outcome ToolError B
ok a >>= f = f a
raised e >>= f = raised e

abbrev pub values_of : List Value → Values
values_of [] = nil
values_of (x ∷ xs) = cons x (values_of xs)

abbrev pub fields_of : List (String × Value) → Fields
fields_of [] = end
fields_of ((k, v) ∷ xs) = entry k v (fields_of xs)

abbrev pub array : List Value → Value
array xs = items (values_of xs)

abbrev pub object : List (String × Value) → Value
object xs = fields (fields_of xs)

unfoldable pub find : String → Fields → Option Value
find k end = none
find k (entry j v rest) = if j == k then some v else find k rest

-- `not set(doc) - names`
unfoldable pub keys_within : List String → Fields → Bool
keys_within names end = true
keys_within names (entry k v rest) = contains names k && keys_within names rest

abbrev pub or_null : Option Value → Value
or_null none = null
or_null (some v) = v

-- `v.get(k)`
abbrev pub field : String → Value → Outcome ToolError Value
field k (fields fs) = ok (or_null (find k fs))
field k null = raised type_error
field k (flag b) = raised type_error
field k (integer n) = raised type_error
field k (text s) = raised type_error
field k (items xs) = raised type_error

abbrev pub is_null : Value → Bool
is_null null = true
is_null (flag b) = false
is_null (integer n) = false
is_null (text s) = false
is_null (items xs) = false
is_null (fields fs) = false

-- `isinstance(v, dict)`
abbrev pub is_dict : Value → Bool
is_dict null = false
is_dict (flag b) = false
is_dict (integer n) = false
is_dict (text s) = false
is_dict (items xs) = false
is_dict (fields fs) = true

-- `v` as a text, where `isinstance(v, str)`
abbrev pub text_of : Value → Option String
text_of null = none
text_of (flag b) = none
text_of (integer n) = none
text_of (text s) = some s
text_of (items xs) = none
text_of (fields fs) = none

-- `v` as an integer, where `isinstance(v, int)`: a Boolean is one, too.
abbrev pub integer_of : Value → Option ℤ
integer_of null = none
integer_of (flag b) = some (if b then pos 1 else pos 0)
integer_of (integer n) = some n
integer_of (text s) = none
integer_of (items xs) = none
integer_of (fields fs) = none

abbrev pub list_of : Values → List Value
list_of nil = []
list_of (cons v vs) = v ∷ list_of vs

-- `v` as a list, where `isinstance(v, list)`
abbrev pub items_of : Value → Option (List Value)
items_of null = none
items_of (flag b) = none
items_of (integer n) = none
items_of (text s) = none
items_of (items xs) = some (list_of xs)
items_of (fields fs) = none

abbrev pub is_zero : ℤ → Bool
is_zero (pos n) = n == 0
is_zero (negsuc n) = false

-- `bool(v)`
abbrev pub truthy : Value → Bool
truthy null = false
truthy (flag b) = b
truthy (integer n) = if is_zero n then false else true
truthy (text s) = if s == "" then false else true
truthy (items nil) = false
truthy (items (cons v vs)) = true
truthy (fields end) = false
truthy (fields (entry k v fs)) = true

-- `v or {}`
abbrev pub or_empty : Value → Value
or_empty v = if truthy v then v else fields end

-- `d.pop(k, None)` or a comprehension that leaves out one key.
unfoldable pub without : String → Fields → Fields
without k end = end
without k (entry j v rest) = if j == k then without k rest else entry j v (without k rest)

-- `d[k] = v`
unfoldable pub put : String → Value → Fields → Fields
put k v end = entry k v end
put k v (entry j w rest) = if j == k then entry j v rest else entry j w (put k v rest)

abbrev pub size : Fields → ℕ
size end = 0
size (entry k v rest) = size rest + 1

abbrev pub same_integer : ℤ → ℤ → Bool
same_integer (pos m) (pos n) = m == n
same_integer (pos m) (negsuc n) = false
same_integer (negsuc m) (pos n) = false
same_integer (negsuc m) (negsuc n) = m == n

abbrev pub is_integer : ℤ → Option ℤ → Bool
is_integer m none = false
is_integer m (some n) = same_integer m n

abbrev pub is_text : String → Value → Bool
is_text s v = elim (text_of v) [ none ↦ false | some t ↦ s == t ]

-- `v == w`: a Boolean is its number, and the order of a dict's keys does not count.
unfoldable mutual
  pub same_value : Value → Value → Bool
  same_value null w = is_null w
  same_value (flag b) w = is_integer (if b then pos 1 else pos 0) (integer_of w)
  same_value (integer n) w = is_integer n (integer_of w)
  same_value (text s) w = is_text s w
  same_value (items vs) (items ws) = same_values vs ws
  same_value (items vs) null = false
  same_value (items vs) (flag b) = false
  same_value (items vs) (integer n) = false
  same_value (items vs) (text s) = false
  same_value (items vs) (fields fs) = false
  same_value (fields fs) (fields gs) = size fs == size gs && all_in fs gs
  same_value (fields fs) null = false
  same_value (fields fs) (flag b) = false
  same_value (fields fs) (integer n) = false
  same_value (fields fs) (text s) = false
  same_value (fields fs) (items ws) = false

  pub same_values : Values → Values → Bool
  same_values nil nil = true
  same_values nil (cons w ws) = false
  same_values (cons v vs) nil = false
  same_values (cons v vs) (cons w ws) = same_value v w && same_values vs ws

  -- Every entry is in the other dict, with an equal value.
  pub all_in : Fields → Fields → Bool
  all_in end gs = true
  all_in (entry k v rest) gs =
      elim (find k gs) [ none ↦ false | some w ↦ same_value v w ] && all_in rest gs

-- No key is no text.
pub same_value-text : (v : Value) (s : String) → v ≡ text s → same_value null v ≡ false
unfolding same_value
same_value-text v s q = rw q refl
