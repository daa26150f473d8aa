-- ===== src/Document/Numbers.antt =====
-- `int(v)` of a value, with decimal texts in ASCII digits.
use Prim.Native.Char.{code}
use Prim.Native.String.{String}
use ouf_api_gateway.Base.{
  ◌||◌, ℕ, Bool, false, ◌&&◌, Option, none, some, ◌==◌, nat_eq, string_eq, leb, if◌then◌else◌, ◌+◌,
  ◌-◌, ◌*◌, Outcome, ok, raised,
}
use ouf_api_gateway.Base.Int.{ℤ, pos, negsuc}
use ouf_api_gateway.Document.{
  Value, null, flag, integer, text, items, fields, ToolError, type_error,
}
use ouf_api_gateway.Document.Names.{strip}

-- The digits read so far, and whether the last character was one: a single `_` may part two digits.
unfoldable pub digits : ℕ → Bool → String → Option ℕ
digits n after_digit String.[] = if after_digit then some n else none
digits n after_digit (String.◌∷◌ c s) =
    let is_digit = leb 48 (code c) && leb (code c) 57 in
    let rest = digits (if is_digit then 10 * n + (code c - 48) else n) is_digit s in
    if is_digit || (code c == 95 && after_digit) then rest else none

abbrev pub negated : ℕ → ℤ
negated n = if n == 0 then pos 0 else negsuc (n - 1)

abbrev pub as_positive : Option ℕ → Option ℤ
as_positive none = none
as_positive (some n) = some (pos n)

abbrev pub as_negative : Option ℕ → Option ℤ
as_negative none = none
as_negative (some n) = some (negated n)

-- A text without the blanks round it, with its sign.
unfoldable pub signed : String → Option ℤ
unfolding digits
signed String.[] = none
signed (String.◌∷◌ c s) =
    if code c == 45
    then as_negative (digits 0 false s)
    else if code c == 43
    then as_positive (digits 0 false s)
    else as_positive (digits 0 false (String.◌∷◌ c s))

abbrev pub parsed : Option ℤ → Outcome ToolError ℤ
parsed none = raised type_error
parsed (some n) = ok n

unfoldable pub to_int : Value → Outcome ToolError ℤ
unfolding signed strip
to_int null = raised type_error
to_int (flag b) = ok (if b then pos 1 else pos 0)
to_int (integer n) = ok n
to_int (text s) = parsed (signed (strip s))
to_int (items xs) = raised type_error
to_int (fields fs) = raised type_error
