-- ===== src/Etcd/Safety.antt =====
-- The publication and restore checks of tools/etcd_resilience.py.
use mathlib.Core.List.{Perm}
use mathlib.Core.List.Perm
use mathlib.Core.Path.{subst}
use ouf_api_gateway.Base.{
  ◌≡◌, ◌↔◌, refl, inl, inr, true, false, some, String, List, [], ◌∷◌, ok, arith, Bool-cases, any,
  all, contains, ◌==◌, string_eq, option_eq, same_option_iff, sym, eq_iff, text_le, eq_refl,
}
use ouf_api_gateway.Base.Text.{insert_sorted, sort_by}
use ouf_api_gateway.Etcd.Gate.{
  Gate, EtcdHealth, DesiredState, RestoredState, publication_allowed, require_publication_allowed,
  same_texts, sorted, has_wildcard, verify_restore,
}

-- The two forms of the gate agree: the call that raises goes on exactly where the test allows the
-- publication.
require_publication_allowed_agrees :
    (g : Gate) (h : EtcdHealth)
    → ((require_publication_allowed g h).1 ≡ ok tt) ↔ (publication_allowed g h ≡ true)
unfolding require_publication_allowed publication_allowed
require_publication_allowed_agrees g h = (λ e. ground arith, λ e. ground arith)

same_texts-path : (xs ys : List String) → same_texts xs ys ≡ true → xs ≡ ys
same_texts-path [] [] h = refl
same_texts-path [] (y ∷ ys) h = absurd (ground arith)
same_texts-path (x ∷ xs) [] h = absurd (ground arith)
same_texts-path (x ∷ xs) (y ∷ ys) h =
    let p = (eq_iff x y).0 (ground arith) in
    let q = same_texts-path xs ys (ground arith) in rw (p, q) refl

same_texts_refl : (xs : List String) → same_texts xs xs ≡ true
same_texts_refl [] = refl
same_texts_refl (x ∷ xs) = ground (arith, eq_refl x, same_texts_refl xs)

insert_sorted-Perm : (x : String) (xs : List String) → Perm (insert_sorted (λ y. y) x xs) (x ∷ xs)
unfolding insert_sorted
insert_sorted-Perm x [] = Perm.refl (x ∷ [])
insert_sorted-Perm x (y ∷ ys) = elim (Bool-cases (text_le x y)) [
  | inl before ↦ rw before (Perm.refl (x ∷ y ∷ ys))
  | inr after ↦ rw after (Perm.trans (Perm.cons y (insert_sorted-Perm x ys)) (Perm.swap x y ys))
]

sorted-Perm : (xs : List String) → Perm (sorted xs) xs
unfolding sort_by
sorted-Perm [] = Perm.refl []
sorted-Perm (x ∷ xs) = Perm.trans (insert_sorted-Perm x (sorted xs)) (Perm.cons x (sorted-Perm xs))

same_sorted-Perm : (xs ys : List String) → same_texts (sorted xs) (sorted ys) ≡ true → Perm xs ys
same_sorted-Perm xs ys h =
    Perm.trans (Perm.symm (sorted-Perm xs))
      (subst (λ l. Perm l ys) (sym (same_texts-path (sorted xs) (sorted ys) h)) (sorted-Perm ys))

-- A restored state that keeps what was desired: the revision, the routes and the upstreams up to
-- their order, the allow list, and no wildcard.
pub record IsFaithful (g : Gate) (desired : DesiredState) (restored : RestoredState) : Type 0 where
  pub revision : restored.active_revision ≡ some desired.revision
  pub routes : Perm restored.routes desired.routes
  pub upstreams : Perm restored.upstreams desired.upstreams
  pub allowed : all (contains g.allowed_upstreams) restored.upstreams ≡ true
  pub no_wildcard_route : any has_wildcard restored.routes ≡ false
  pub no_wildcard_upstream : any has_wildcard restored.upstreams ≡ false

-- A restore that `verify_restore` accepts is faithful: it has the desired revision, the desired
-- routes and upstreams up to their order and no others, only allow-listed upstreams, and no
-- wildcard.
pub verify_restore-IsFaithful :
    (g : Gate) (desired : DesiredState) (restored : RestoredState)
    → verify_restore g desired restored ≡ ok tt
    → IsFaithful g desired restored
unfolding verify_restore
verify_restore-IsFaithful g d r h =
    let q : (r.active_revision == some d.revision) ≡ true = ground arith in
    record {
      revision = (same_option_iff r.active_revision (some d.revision)).0 q;
      routes = same_sorted-Perm r.routes d.routes (ground arith);
      upstreams = same_sorted-Perm r.upstreams d.upstreams (ground arith);
      allowed = ground arith;
      no_wildcard_route = ground arith;
      no_wildcard_upstream = ground arith;
    }
