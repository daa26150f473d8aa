-- ===== src/Document/Names.antt =====
-- `str.strip`, `str.rstrip("/")`, and the patterns of names that the tools match with `re.fullmatch`.
use Prim.Native.Char.{code}
use Prim.Native.String.{String}
use ouf_api_gateway.Base.{
  ℕ, Bool, true, ◌&&◌, ◌||◌, not, ◌==◌, nat_eq, string_eq, leb, if◌then◌else◌,
}

abbrev between : ℕ → ℕ → ℕ → Bool
between lo hi n = leb lo n && leb n hi

-- `c.isspace()`
unfoldable pub is_space : ℕ → Bool
is_space n =
    between 9 13 n
    || between 28 32 n
    || n == 133
    || n == 160
    || n == 5760
    || between 8192 8202 n
    || between 8232 8233 n
    || n == 8239
    || n == 8287
    || n == 12288

unfoldable pub drop_space : String → String
unfolding is_space
drop_space String.[] = ""
drop_space (String.◌∷◌ c s) =
    let rest = drop_space s in if is_space (code c) then rest else String.◌∷◌ c s

-- The text without the characters at its end that pass a test.
unfoldable pub drop_end : (ℕ → Bool) → String → String
drop_end p String.[] = ""
drop_end p (String.◌∷◌ c s) =
    let rest = drop_end p s in if rest == "" && p (code c) then "" else String.◌∷◌ c rest

-- `s.strip()`
unfoldable pub strip : String → String
unfolding drop_space drop_end is_space
strip s = drop_end is_space (drop_space s)

-- `s.rstrip("/")`
unfoldable pub drop_slashes : String → String
unfolding drop_end
drop_slashes s = drop_end (λ n. n == 47) s

unfoldable pub all_chars : (ℕ → Bool) → String → Bool
all_chars p String.[] = true
all_chars p (String.◌∷◌ c s) = p (code c) && all_chars p s

-- `[A-Za-z0-9]`
unfoldable pub is_alphanumeric : ℕ → Bool
is_alphanumeric n = between 48 57 n || between 65 90 n || between 97 122 n

-- `re.fullmatch(r"[A-Za-z0-9._-]+", s)`
unfoldable pub is_name : String → Bool
unfolding is_alphanumeric all_chars
is_name s =
    not (s == "") && all_chars (λ n. is_alphanumeric n || n == b'.' || n == b'_' || n == b'-') s

-- `re.fullmatch(r"[A-Za-z0-9_-]+", s)`
unfoldable pub is_plain_name : String → Bool
unfolding is_alphanumeric all_chars
is_plain_name s = not (s == "") && all_chars (λ n. is_alphanumeric n || n == b'_' || n == b'-') s
