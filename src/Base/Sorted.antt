-- ===== src/Base/Sorted.antt =====
-- The members of a sorted list of texts.
use ouf_api_gateway.Base.{
  String, List, [], ◌∷◌, ◌==◌, ◌||◌, string_eq, ◌≡◌, refl, ◌∙◌, arith, contains, ap,
}
use ouf_api_gateway.Base.Text.{sort_by, insert_sorted}

contains-insert_sorted :
    (j id : String) (ids : List String)
    → contains (insert_sorted (λ s. s) id ids) j ≡ contains (id ∷ ids) j
unfolding insert_sorted
contains-insert_sorted j id [] = refl
contains-insert_sorted j id (x ∷ ids) = ground (arith, contains-insert_sorted j id ids)

pub contains-sort_by :
    (j : String) (ids : List String) → contains (sort_by (λ s. s) ids) j ≡ contains ids j
unfolding sort_by
contains-sort_by j [] = refl
contains-sort_by j (id ∷ ids) =
    contains-insert_sorted j id (sort_by (λ s. s) ids)
    ∙ ap (λ b. j == id || b) (contains-sort_by j ids)
