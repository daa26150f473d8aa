-- ===== src/Owner/Shown.antt =====
-- `handle` of tools/gateway_operational_api.py, where it answers with a direct listing.
use mathlib.Core.Path.{subst}
use ouf_api_gateway.Base.{
  ℕ, Bool, true, false, not, ◌&&◌, ◌||◌, Option, none, some, String, List, string_eq, ◌≡◌, refl, ap,
  ◌∙◌, sym, Outcome, ok, raised, ok-injective, if◌then◌else◌, All, arith, Bool-cases, inl, inr,
  take, eq_iff, nat_eq,
}
use ouf_api_gateway.Base.Dict.{Dict, lookup}
use ouf_api_gateway.Document.{Value}
use ouf_api_gateway.Incidents.Store.{Store, OperationalIncident}
use ouf_api_gateway.Owner.{
  OwnerFailure, rejected, store_unavailable, owner_unavailable, demand, header, Authorizer,
  decision_of,
}
use ouf_api_gateway.Owner.Query.{OwnerQuery}
use ouf_api_gateway.Owner.Handle.{
  OwnerPath, incidents_path, summary_path, capability_of, visible_rows, Listing, listing_of, direct,
  visible, handle, answer_of, routed, Answer, listing, paged, Pagers, Response, served, problem,
  listed, is_given, response_of, at_path, is_verified, path_of, is_incidents,
}
use ouf_api_gateway.Owner.Granted.{
  then-ok, IsGranted, IsShown, shown_row, decision_of-IsGranted, visible_rows-All,
}

-- What an answer with a listing rests on.
pub record IsAuthorised (owner_authorize : Option Authorizer) (headers : Dict String) (l : Listing)
    : Type 0 where
  pub path : OwnerPath
  pub identity : Value
  pub policy : String
  pub verified : lookup "X-OUF-Gateway-Verified" headers ≡ some "true"
  pub collection : IsGranted owner_authorize headers (capability_of path) none none identity policy
  pub rows : All (IsShown owner_authorize headers (capability_of path) identity policy) l.shown

module _ {P : Type 0} (query_of : String → Bool → Outcome OwnerFailure OwnerQuery)
    (owner_authorize : Option Authorizer) (pagers : Pagers P) (size : Answer P → ℕ) where
  shown_of-listing :
      (path : OwnerPath) (truncated : Bool) (original : ℕ) (shown : List OperationalIncident)
      → (listing_of path truncated original shown).shown ≡ shown
  unfolding listing_of
  shown_of-listing incidents_path truncated original shown = refl
  shown_of-listing summary_path truncated original shown = refl

  direct-rows :
      (store : Store) (headers : Dict String) (path : OwnerPath) (q : OwnerQuery) (identity : Value)
      (policy : String) (l : Listing)
      → direct query_of owner_authorize pagers size store headers path q identity policy ≡ ok l
      → All (IsShown owner_authorize headers (capability_of path) identity policy) l.shown
  unfolding direct
  direct-rows store headers path q identity policy l h =
      let rows = then-ok (listed _) _ h in
      let see = visible query_of owner_authorize pagers size headers path identity policy in
      let shown = then-ok (visible_rows see (take q.limit rows.0)) _ rows.2 in
      let same : listing_of path _ _ shown.0 ≡ l = ok-injective shown.2 in
      subst
        (λ (m : Listing).
          All (IsShown owner_authorize headers (capability_of path) identity policy) m.shown)
        same
        (subst (All (IsShown owner_authorize headers (capability_of path) identity policy))
          (sym (shown_of-listing path _ _ shown.0))
          (visible_rows-All _ see (take q.limit rows.0) shown.0
            (λ r seen.
              let row = shown_row identity policy _ seen in
              (
                row.0,
                decision_of-IsGranted owner_authorize headers (capability_of path)
                    (some r.incident_id) r.endpoint_ref row.0 policy row.1,
                row.2,
              ))
            shown.1))

  routed-direct :
      (store : Store) (headers : Dict String) (path : OwnerPath) (q : OwnerQuery) (identity : Value)
      (policy : String) (l : Listing)
      → routed query_of owner_authorize pagers size store headers path q identity policy
        ≡ ok (listing l)
      → direct query_of owner_authorize pagers size store headers path q identity policy ≡ ok l
  unfolding routed
  routed-direct store headers path q identity policy l h =
      elim (Bool-cases (q.coverage || is_given q.resume_from)) [
        | inl marked ↦
            let b =
              then-ok (pagers.bookmarks q _ identity policy _) (λ p. ok (paged p))
                (let h' = rw marked at h in h') in
            absurd (not_paged b.0 l b.2)
        | inr unmarked ↦
            let h1 = rw unmarked at h in
            elim (Bool-cases (q.snapshot || is_given q.cursor)) [
              | inl paging ↦
                  let c =
                    then-ok (pagers.cursors q identity policy _) (λ p. ok (paged p))
                      (let h' = rw paging at h1 in h') in
                  absurd (not_paged c.0 l c.2)
              | inr plain ↦
                  let d =
                    then-ok
                      (direct query_of owner_authorize pagers size store headers path q identity
                        policy)
                      (λ m. ok (listing m)) (let h' = rw plain at h1 in h') in
                  d.1 ∙ ap ok (same_listing d.0 l d.2)
            ]
      ]
    where
      not_paged :
          (p : P) (l : Listing)
          → ◌≡◌ {A = Outcome OwnerFailure (Answer P)} (ok (paged p)) (ok (listing l))
          → ⊥
      not_paged p l e = ground arith

      same_listing :
          (m l : Listing)
          → ◌≡◌ {A = Outcome OwnerFailure (Answer P)} (ok (listing m)) (ok (listing l))
          → m ≡ l
      same_listing m l e = ground arith

  response-served :
      (r : Outcome OwnerFailure (Answer P)) (a : Answer P)
      → response_of query_of owner_authorize pagers size r ≡ served a
      → r ≡ ok a
  response-served (ok b) a h = ap ok (let q : b ≡ a = ground arith in q)
  response-served (raised (rejected status code)) a h = absurd (ground arith)
  response-served (raised store_unavailable) a h = absurd (ground arith)
  response-served (raised owner_unavailable) a h = absurd (ground arith)

  at_path-served :
      (store : Store) (headers : Dict String) (body : String) (o : Option OwnerPath) (a : Answer P)
      → at_path query_of owner_authorize pagers size store headers body o ≡ served a
      → (path : OwnerPath) × (answer_of query_of owner_authorize pagers size store headers path body
          ≡ ok a)
  at_path-served store headers body none a h = absurd (ground arith)
  at_path-served store headers body (some path) a h = (
    path,
    response-served (answer_of query_of owner_authorize pagers size store headers path body) a h,
  )

  verified_text :
      (o : Option String)
      → is_verified query_of owner_authorize pagers size o ≡ true
      → o ≡ some "true"
  verified_text none h = absurd (ground arith)
  verified_text (some v) h = ap some ((eq_iff v "true").0 h)

  behind_guards :
      (first second : Bool) (rest : Response P) (a : Answer P)
      → (if not first
          then problem 401 "TRUSTED_GATEWAY_CONTEXT_REQUIRED" none
          else if not second
          then problem 403 "VERIFIED_AUTHORIZATION_CONTEXT_REQUIRED" none
          else rest)
        ≡ served a
      → (first ≡ true) × (rest ≡ served a)
  behind_guards false second rest a h = absurd (ground arith)
  behind_guards true false rest a h = absurd (ground arith)
  behind_guards true true rest a h = (refl, h)

  handle-served :
      (store : Store) (path : String) (headers : Dict String) (body : String) (a : Answer P)
      → handle query_of owner_authorize pagers size store path headers body ≡ served a
      → (lookup "X-OUF-Gateway-Verified" headers ≡ some "true")
        × (at_path query_of owner_authorize pagers size store headers body (path_of path)
            ≡ served a)
  unfolding handle
  handle-served store path headers body a h =
      let parts =
        behind_guards
          (is_verified query_of owner_authorize pagers size
            (lookup "X-OUF-Gateway-Verified" headers))
          (is_given (header "X-OUF-Principal-ID" headers)
            && is_given (header "X-OUF-Authorization-Decision-Ref" headers))
          _ a h in
      (verified_text _ parts.0, parts.1)

  -- Where `handle` answers with a direct listing, the gateway's marker is on the headers, the host's
  -- authorizer is in place and grants the collection now, and each incident shown is granted now for
  -- exactly its own resource, to the same identity and under the same policy.
  pub handle-IsAuthorised :
      (store : Store) (path : String) (headers : Dict String) (body : String) (l : Listing)
      → handle query_of owner_authorize pagers size store path headers body ≡ served (listing l)
      → IsAuthorised owner_authorize headers l
  unfolding answer_of
  handle-IsAuthorised store path headers body l h =
      let parts = handle-served store path headers body (listing l) h in
      let found = at_path-served store headers body (path_of path) (listing l) parts.1 in
      let q = then-ok (query_of body (is_incidents found.0)) _ found.1 in
      let d =
        then-ok (decision_of owner_authorize headers (capability_of found.0) none none) _ q.2 in
      let answer =
        then-ok (routed query_of owner_authorize pagers size store headers found.0 q.0 d.0.0 d.0.1)
          _ d.2 in
      let fits = then-ok (demand _ _ _) _ answer.2 in
      let same : answer.0 ≡ listing l = ok-injective fits.2 in
      record {
        path = found.0;
        identity = d.0.0;
        policy = d.0.1;
        verified = parts.0;
        collection =
            decision_of-IsGranted owner_authorize headers (capability_of found.0) none none d.0.0
              d.0.1 d.1;
        rows =
            direct-rows store headers found.0 q.0 d.0.0 d.0.1 l
              (routed-direct store headers found.0 q.0 d.0.0 d.0.1 l (answer.1 ∙ ap ok same));
      }
