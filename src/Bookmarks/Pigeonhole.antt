-- ===== src/Bookmarks/Pigeonhole.antt =====
-- Different multiples of a page's size below a bound: there are at most as many as the bound.
use mathlib.Core.Path.{subst}
use ouf_api_gateway.Base.{
  ℕ, zero, suc, ◌*◌, ◌≤◌, ◌<◌, ◌≡◌, refl, ap, inl, inr, true, false, List, [], ◌∷◌, ◌==◌, ◌≠◌,
  nat_eq, arith, Bool-cases, All, contains, select, length, ltb,
}

abbrev pub AreDistinct : List ℕ → Type 0
AreDistinct [] = Unit
AreDistinct (x ∷ xs) = (contains xs x ≡ false) × AreDistinct xs

-- A multiple of `size`, below `bound` times it.
abbrev pub IsMultiple : ℕ → ℕ → ℕ → Type 0
IsMultiple size bound x = (k : ℕ) × (x ≡ k * size) × (k < bound)

abbrev others : ℕ → List ℕ → List ℕ
others q xs = select (λ x. x ≠ q) xs

others-absent : (q : ℕ) (xs : List ℕ) → contains xs q ≡ false → others q xs ≡ xs
others-absent q [] h = refl
others-absent q (x ∷ xs) h =
    let off : (x == q) ≡ false = ground arith in
    let rest = others-absent q xs (ground arith) in rw off (ap (λ ys. x ∷ ys) rest)

length-others : (q : ℕ) (xs : List ℕ) → AreDistinct xs → length xs ≤ suc (length (others q xs))
length-others q [] d = omega arith
length-others q (x ∷ xs) (fresh, d) = elim (Bool-cases (x == q)) [
  | inl on ↦
      let same : x ≡ q = ground arith in
      let absent = others-absent q xs (subst (λ y. contains xs y ≡ false) same fresh) in
      rw on (omega (arith, ap length absent))
  | inr off ↦ rw off (omega (arith, length-others q xs d))
]

contains-others : (q x : ℕ) (xs : List ℕ) → contains xs x ≡ false → contains (others q xs) x ≡ false
contains-others q x [] h = refl
contains-others q x (y ∷ xs) h = elim (Bool-cases (y == q)) [
  | inl on ↦ rw on (contains-others q x xs (ground arith))
  | inr off ↦ rw off (let ih = contains-others q x xs (ground arith) in ground arith)
]

others-AreDistinct : (q : ℕ) (xs : List ℕ) → AreDistinct xs → AreDistinct (others q xs)
others-AreDistinct q [] d = tt
others-AreDistinct q (x ∷ xs) (fresh, d) = elim (Bool-cases (x == q)) [
  | inl on ↦ rw on (others-AreDistinct q xs d)
  | inr off ↦ rw off (contains-others q x xs fresh, others-AreDistinct q xs d)
]

below : (size n k x : ℕ) → x ≡ k * size → k < suc n → (x == n * size) ≡ false → k < n
below size n k x q b off = elim (Bool-cases (ltb k n)) [
  | inl less ↦ ground arith
  | inr most ↦ absurd (
      let same : k ≡ n = ground arith in
      let q' : x ≡ n * size = subst (λ m. x ≡ m * size) same q in ground arith)
]

others-AllBelow :
    (size n : ℕ) (xs : List ℕ)
    → All (IsMultiple size (suc n)) xs
    → All (IsMultiple size n) (others (n * size) xs)
others-AllBelow size n [] h = tt
others-AllBelow size n (x ∷ xs) ((k, q, b), h) = elim (Bool-cases (x == n * size)) [
  | inl on ↦ rw on (others-AllBelow size n xs h)
  | inr off ↦ rw off ((k, q, below size n k x q b off), others-AllBelow size n xs h)
]

pub pigeonhole :
    (size n : ℕ) (xs : List ℕ) → AreDistinct xs → All (IsMultiple size n) xs → length xs ≤ n
pigeonhole size zero [] d h = omega arith
pigeonhole size zero (x ∷ xs) d ((k, q, b), h) = absurd (omega (arith, b))
pigeonhole size (suc n) xs d h = omega (
  arith,
  length-others (n * size) xs d,
  pigeonhole size n (others (n * size) xs) (others-AreDistinct (n * size) xs d)
      (others-AllBelow size n xs h),
)

-- As many different multiples as the bound: every multiple is there.
pub all-there :
    (size n k : ℕ) (xs : List ℕ)
    → AreDistinct xs
    → All (IsMultiple size n) xs
    → n ≤ length xs
    → k < n
    → contains xs (k * size) ≡ true
all-there size n k xs d h many b = elim (Bool-cases (contains xs (k * size))) [
  | inl there ↦ there
  | inr absent ↦ absurd (
      let most = pigeonhole size n (k * size ∷ xs) (absent, d) ((k, refl, b), h) in
      omega (arith, most, many))
]
