-- ===== src/Base/Dict.antt =====
-- A dict or a keyed table with text keys, as an association list in the order of insertion.
use ouf_api_gateway.Base.Tests.{◌==◌, string_eq, if◌then◌else◌}
use ouf_api_gateway.Base.Lists.{length}
use Prim.Native.Nat.{◌+◌, ◌≤◌}
use Prim.Native.String.{String}
use mathlib.Core.Path.{◌≡◌, refl, sym, subst}
use mathlib.Core.Logic.{inl, inr}
use ouf_api_gateway.Base.Tests.{Bool-cases}
use mathlib.Core.Option.{Option, none, some, some-injective}
use mathlib.Core.List.{List, [], ◌∷◌}
use native.Mathlib.Omega.{arith}
use text.Mathlib.TextEquality.{eq_iff}

abbrev pub Dict {ℓ} : Type ℓ → Type ℓ
Dict V = List (String × V)

module _ {ℓ} {V : Type ℓ} where
  -- `d.get(k)`
  unfoldable pub lookup : String → Dict V → Option V
  lookup k [] = none
  lookup k ((j, v) ∷ d) = if j == k then some v else lookup k d

  -- `d[k] = v`: a new key goes to the end, an old one keeps its place.
  unfoldable pub insert : String → V → Dict V → Dict V
  insert k v [] = (k, v) ∷ []
  insert k v ((j, w) ∷ d) = if j == k then (j, v) ∷ d else (j, w) ∷ insert k v d

  pub lookup-insert :
      (k asked : String) (v : V) (d : Dict V)
      → lookup asked (insert k v d) ≡ (if k == asked then some v else lookup asked d)
  unfolding insert lookup
  lookup-insert k asked v [] = refl
  lookup-insert k asked v ((j, w) ∷ rest) =
      ground (arith, eq_iff k asked, eq_iff j k, eq_iff j asked, lookup-insert k asked v rest)

  pub length-insert : (k : String) (v : V) (d : Dict V) → length (insert k v d) ≤ length d + 1
  unfolding insert
  length-insert k v [] = omega arith
  length-insert k v ((j, w) ∷ d) = ground (arith, length-insert k v d)

  -- Writing to a key that is there adds no entry.
  pub length-insert_old :
      (k : String) (v w : V) (d : Dict V) → lookup k d ≡ some w → length (insert k v d) ≡ length d
  unfolding insert lookup
  length-insert_old k v w [] h = absurd (ground arith)
  length-insert_old k v w ((j, u) ∷ d) h = ground (arith, length-insert_old k v w d)

module _ {ℓ} {V : Type ℓ} (P : String → V → Type 0) where
  abbrev pub AllEntries : Dict V → Type 0
  AllEntries [] = Unit
  AllEntries ((k, v) ∷ d) = P k v × AllEntries d

  pub AllEntries-insert :
      (k : String) (v : V) (d : Dict V) → P k v → AllEntries d → AllEntries (insert k v d)
  unfolding insert
  AllEntries-insert k v [] p h = (p, tt)
  AllEntries-insert k v ((j, w) ∷ d) p (q, h) = elim (Bool-cases (j == k)) [
    | inl same ↦ rw same (subst (λ x. P x v) (sym ((eq_iff j k).0 same)) p, h)
    | inr other ↦ rw other (q, AllEntries-insert k v d p h)
  ]

  pub AllEntries-lookup :
      (k : String) (v : V) (d : Dict V) → AllEntries d → lookup k d ≡ some v → P k v
  unfolding lookup
  AllEntries-lookup k v [] h e = absurd (ground arith)
  AllEntries-lookup k v ((j, w) ∷ d) (q, h) e = elim (Bool-cases (j == k)) [
    | inl same ↦
        let e' : some w ≡ some v = let e2 = rw same at e in e2 in
        subst (λ x. P x v) ((eq_iff j k).0 same) (subst (λ x. P j x) (some-injective w v e') q)
    | inr other ↦ AllEntries-lookup k v d h (let e2 = rw other at e in e2)
  ]
