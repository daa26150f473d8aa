-- ===== src/Config/Disjoint.antt =====
-- The duplicate test of `compile_config` in tools/compile_config.py, over a build.
pub mod Output
use mathlib.Core.Path.{ap, subst₂, subst₃}
use ouf_api_gateway.Base.{
  ◌==◌, Option-cases, text_le, eq_refl, ◌∙◌, ℕ, ◌≡◌, ◌≢◌, ◌⊎◌, inl, inr, refl, sym, Bool, true,
  false, Option, none, some, String, List, [], ◌∷◌, ◌++◌, Outcome, ok, raised, Yields, All,
  All-append, any, arith, ◌>>=◌, string_eq, eq_iff, Bool-cases, Outcome-cases,
}
use ouf_api_gateway.Base.Text.{insert_sorted, sort_by}
use ouf_api_gateway.Config.Documents.{
  find_source, find_capability, SourceRuntimeProfile, Capability, Document, RouteBinding, route,
}
use ouf_api_gateway.Config.Compile.{
  compiled_route, ConfigError, CompiledRoute, Build, is_pair, is_selected, is_triple, is_taken,
  claim,
}

-- Two routes with one method and path are told apart by two different URI regexes.
abbrev pub Disjoint : CompiledRoute → CompiledRoute → Type 0
Disjoint r s =
    r.method ≡ s.method
    → r.uri ≡ s.uri
    → (a : String) × (b : String) × (r.uri_regex ≡ some a) × (s.uri_regex ≡ some b) × (a ≢ b)

abbrev pub AllDisjoint : List CompiledRoute → Type 0
AllDisjoint [] = Unit
AllDisjoint (r ∷ rs) = All (Disjoint r) rs × AllDisjoint rs

Disjoint-sym : (r s : CompiledRoute) → Disjoint r s → Disjoint s r
Disjoint-sym r s d m u = let (a, b, p, q, n) = d (sym m) (sym u) in (b, a, q, p, λ e. n (sym e))

AllDisjoint-snoc :
    (rs : List CompiledRoute) (n : CompiledRoute)
    → AllDisjoint rs
    → All (λ r. Disjoint r n) rs
    → AllDisjoint (rs ++ (n ∷ []))
AllDisjoint-snoc [] n d h = (tt, tt)
AllDisjoint-snoc (r ∷ rs) n (dr, d) (hr, h) =
    (All-append (Disjoint r) rs (n ∷ []) dr (hr, tt), AllDisjoint-snoc rs n d h)

module _ {ℓ κ} {A : Type ℓ} (key : A → String) (P : A → Type κ) where
  All-insert_sorted : (x : A) (xs : List A) → P x → All P xs → All P (insert_sorted key x xs)
  unfolding insert_sorted
  All-insert_sorted x [] p ps = (p, tt)
  All-insert_sorted x (y ∷ ys) p (q, qs) = elim (Bool-cases (text_le (key x) (key y))) [
    | inl before ↦ rw before (p, (q, qs))
    | inr after ↦ rw after (q, All-insert_sorted x ys p qs)
  ]

  All-sort_by : (xs : List A) → All P xs → All P (sort_by key xs)
  unfolding sort_by
  All-sort_by [] ps = tt
  All-sort_by (x ∷ xs) (p, ps) = All-insert_sorted x (sort_by key xs) p (All-sort_by xs ps)

module _ (key : CompiledRoute → String) where
  All-Disjoint-sym :
      (x : CompiledRoute) (xs : List CompiledRoute)
      → All (Disjoint x) xs
      → All (λ r. Disjoint r x) xs
  All-Disjoint-sym x [] h = tt
  All-Disjoint-sym x (y ∷ ys) (h, hs) = (Disjoint-sym x y h, All-Disjoint-sym x ys hs)

  AllDisjoint-insert_sorted :
      (x : CompiledRoute) (xs : List CompiledRoute)
      → All (Disjoint x) xs
      → AllDisjoint xs
      → AllDisjoint (insert_sorted key x xs)
  unfolding insert_sorted
  AllDisjoint-insert_sorted x [] h d = (tt, tt)
  AllDisjoint-insert_sorted x (y ∷ ys) (h, hs) (dy, d) =
      elim (Bool-cases (text_le (key x) (key y))) [
        | inl before ↦ rw before ((h, hs), (dy, d))
        | inr after ↦ rw after (
          All-insert_sorted key (Disjoint y) x ys (Disjoint-sym x y h) dy,
          AllDisjoint-insert_sorted x ys hs d,
        )
      ]

  pub AllDisjoint-sort_by :
      (xs : List CompiledRoute) → AllDisjoint xs → AllDisjoint (sort_by key xs)
  unfolding sort_by
  AllDisjoint-sort_by [] d = tt
  AllDisjoint-sort_by (x ∷ xs) (h, d) =
      AllDisjoint-insert_sorted x (sort_by key xs) (All-sort_by key (Disjoint x) xs h)
        (AllDisjoint-sort_by xs d)

any_triple→any_selected :
    (m p r : String) (ts : List (String × String × String))
    → any (is_triple m p r) ts ≡ true
    → any (is_selected m p) ts ≡ true
any_triple→any_selected m p r [] h = h
any_triple→any_selected m p r ((a, b, c) ∷ ts) h = ground (arith, any_triple→any_selected m p r ts)

-- The build remembers under what a route was claimed.
abbrev pub IsClaimed : Build → String → String → Option String → Type 0
IsClaimed b m p none = any (is_pair m p) b.matches ≡ true
IsClaimed b m p (some x) = any (is_triple m p x) b.selected_matches ≡ true

abbrev pub Claimed : Build → CompiledRoute → Type 0
Claimed b r = IsClaimed b r.method r.uri r.uri_regex

pub record IsDisjointBuild (b : Build) : Type 0 where
  pub claimed : All (Claimed b) b.routes
  pub disjoint : AllDisjoint b.routes

not-taken :
    (b : Build) (m p : String) (old new : Option String)
    → IsClaimed b m p old
    → is_taken m p new b ≡ false
    → (x : String) × (y : String) × (old ≡ some x) × (new ≡ some y) × (x ≢ y)
unfolding is_taken
not-taken b m p none none c t = absurd (ground arith)
not-taken b m p none (some y) c t = absurd (ground arith)
not-taken b m p (some x) none c t =
    absurd (ground (arith, any_triple→any_selected m p x b.selected_matches))
not-taken b m p (some x) (some y) c t = (x, y, refl, refl, λ e. let c' = rw e at c in ground arith)

module _ (m p : String) (n : CompiledRoute) where
  grown :
      (new : Option String) (b : Build) (m' p' : String) (old : Option String)
      → IsClaimed b m' p' old
      → IsClaimed (claim m p new n b) m' p' old
  unfolding claim
  grown none b m' p' none c = ground arith
  grown none b m' p' (some x) c = c
  grown (some y) b m' p' none c = c
  grown (some y) b m' p' (some x) c = ground arith

  All-grown :
      (new : Option String) (b : Build) (rs : List CompiledRoute)
      → All (Claimed b) rs
      → All (Claimed (claim m p new n b)) rs
  All-grown new b [] h = tt
  All-grown new b (r ∷ rs) (h, hs) =
      (grown new b r.method r.uri r.uri_regex h, All-grown new b rs hs)

  IsClaimed-claim : (new : Option String) (b : Build) → IsClaimed (claim m p new n b) m p new
  unfolding claim
  IsClaimed-claim none b = ground (arith, eq_refl m, eq_refl p)
  IsClaimed-claim (some x) b = ground (arith, eq_refl m, eq_refl p, eq_refl x)

  routes-claim :
      (new : Option String) (b : Build) → (claim m p new n b).routes ≡ b.routes ++ (n ∷ [])
  unfolding claim
  routes-claim none b = refl
  routes-claim (some x) b = refl

  All-Disjoint_free :
      (new : Option String) (b : Build) (rs : List CompiledRoute)
      → n.method ≡ m
      → n.uri ≡ p
      → n.uri_regex ≡ new
      → is_taken m p new b ≡ false
      → All (Claimed b) rs
      → All (λ r. Disjoint r n) rs
  All-Disjoint_free new b [] em ep er t h = tt
  All-Disjoint_free new b (r ∷ rs) em ep er t (h, hs) = (
    (λ sm su.
        let c : IsClaimed b m p r.uri_regex =
          subst₂ (λ x y. IsClaimed b x y r.uri_regex) (sm ∙ em) (su ∙ ep) h in
        let (x, y, ex, ey, ne) = not-taken b m p r.uri_regex new c t in (x, y, ex, er ∙ ey, ne)),
    All-Disjoint_free new b rs em ep er t hs,
  )

  pub claim-IsDisjointBuild :
      (new : Option String) (b : Build)
      → n.method ≡ m
      → n.uri ≡ p
      → n.uri_regex ≡ new
      → is_taken m p new b ≡ false
      → IsDisjointBuild b
      → IsDisjointBuild (claim m p new n b)
  claim-IsDisjointBuild new b em ep er t d = record {
    claimed = rw routes-claim (
        All-append (Claimed (claim m p new n b)) b.routes (n ∷ [])
          (All-grown new b b.routes d.claimed)
          (
            subst₃ (IsClaimed (claim m p new n b)) (sym em) (sym ep) (sym er)
                (IsClaimed-claim new b),
            tt,
          ));
    disjoint = rw routes-claim (
        AllDisjoint-snoc b.routes n d.disjoint
          (All-Disjoint_free new b b.routes em ep er t d.claimed));
  }
