-- ===== src/Base/Text.antt =====
-- Python's operations on `str` that the program uses, and sorting by a text key.
use Prim.Native.Char.{code}
use Prim.Native.String
use Prim.Native.String.{String}
use Prim.Native.Nat.{ℕ, ◌+◌, ◌-◌}
use text.Mathlib.Text.{starts_with}
use mathlib.Core.Bool.{Bool, ◌&&◌}
use mathlib.Core.List.{List, [], ◌∷◌}
use ouf_api_gateway.Base.Tests.{◌==◌, string_eq, nat_eq, leb, ltb, if◌then◌else◌, text_le}

-- `s.endswith(t)`
unfoldable pub ends_with : String → String → Bool
ends_with s t =
    leb (String.len t) (String.len s)
    && (String.slice s (String.len s - String.len t) (String.len s) == t)

-- `s.count(c)` for one character
unfoldable pub count_code : ℕ → String → ℕ
count_code k String.[] = 0
count_code k (String.◌∷◌ c s) = (if code c == k then 1 else 0) + count_code k s

-- `s[:-1]`, for a text that ends in an ASCII character
unfoldable pub drop_last : String → String
drop_last s = String.slice s 0 (String.len s - 1)

module _ {ℓ} {A : Type ℓ} (key : A → String) where
  -- One insertion of `sorted(..., key=key)`, in front of the first key that is not smaller.
  unfoldable pub insert_sorted : A → List A → List A
  insert_sorted a [] = a ∷ []
  insert_sorted a (x ∷ xs) = if text_le (key a) (key x) then a ∷ x ∷ xs else x ∷ insert_sorted a xs

  unfoldable pub sort_by : List A → List A
  unfolding insert_sorted
  sort_by [] = []
  sort_by (x ∷ xs) = insert_sorted x (sort_by xs)

-- `s.replace(old, new)`, with the number of characters of an occurrence that are still to skip.
unfoldable pub replace_from : String → String → ℕ → String → String
replace_from old new skip String.[] = ""
replace_from old new skip (String.◌∷◌ c s) =
    let rest = replace_from old new (skip - 1) s in
    let after = replace_from old new (String.count old - 1) s in
    if ltb 0 skip
    then rest
    else if starts_with (String.◌∷◌ c s) old
    then String.◌++◌ new after
    else String.◌∷◌ c rest

abbrev pub replace : String → String → String → String
replace s old new = replace_from old new 0 s
