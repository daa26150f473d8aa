-- ===== src/Owner/Honest.antt =====
-- What a summary of tools/gateway_operational_api.py says of the rows that it does not show.
use mathlib.Core.Path.{subst}
use ouf_api_gateway.Base.{
  ℕ, Bool, true, false, not, ◌||◌, Option, none, some, String, List, [], ◌∷◌, ◌==◌, string_eq, ◌≡◌,
  refl, ap, ◌∙◌, Outcome, ok, raised, ok-injective, arith, length, take, ltb, nat_eq, zero, suc,
  ◌+◌,
}
use ouf_api_gateway.Base.Dict.{Dict}
use ouf_api_gateway.Document.{Value}
use ouf_api_gateway.Incidents.Store.{Store, OperationalIncident, ValueError}
use ouf_api_gateway.Owner.{OwnerFailure, Authorizer}
use ouf_api_gateway.Owner.Query.{OwnerQuery}
use ouf_api_gateway.Owner.Handle.{
  status_of, summary_path, visible_rows, Listing, listing_of, direct, visible, unknown, Answer,
  Pagers, listed, status_of,
}
use ouf_api_gateway.Incidents.Listing.{list_incidents}
use ouf_api_gateway.Owner.Granted.{then-ok, visible_rows-whole}

-- What a summary says of what it does not show.
pub record IsHonest (rows : List OperationalIncident) (l : Listing) : Type 0 where
  pub cut : (l.truncated || l.redacted) ≡ true → (l.status ≡ some unknown) × (l.partial ≡ true)
  pub whole :
      (l.truncated || l.redacted) ≡ false
      → (l.shown ≡ rows) × (l.status ≡ some (status_of rows)) × (l.partial ≡ false)

or_false_left : (a b : Bool) → (a || b) ≡ false → a ≡ false
or_false_left a b h = ground arith

or_false_right : (a : Bool) (m n : ℕ) → (a || not (m == n)) ≡ false → m ≡ n
or_false_right a m n h = ground arith

take-all :
    (n : ℕ) (rows : List OperationalIncident) → ltb n (length rows) ≡ false → take n rows ≡ rows
take-all zero [] h = refl
take-all zero (r ∷ rs) h = absurd (ground arith)
take-all (suc n) [] h = refl
take-all (suc n) (r ∷ rs) h = ap (λ l. r ∷ l) (take-all n rs (ground arith))

listing_of-IsHonest :
    (rows original shown : List OperationalIncident) (truncated : Bool)
    → (length shown ≡ length original → shown ≡ original)
    → (truncated ≡ false → original ≡ rows)
    → IsHonest rows (listing_of summary_path truncated (length original) shown)
unfolding listing_of
listing_of-IsHonest rows original shown truncated same whole = record {
  cut = λ h. rw h (refl, refl);
  whole = λ h.
      let q =
        same (or_false_right truncated (length shown) (length original) h)
        ∙ whole (or_false_left truncated _ h) in
      (q, rw h (ap (λ l. some (status_of l)) q), h);
}

listed_one :
    (r : Outcome ValueError (List OperationalIncident)) (rows : List OperationalIncident)
    → listed r ≡ ok rows
    → r ≡ ok rows
listed_one (ok l) rows h = ap ok (ok-injective h)
listed_one (raised e) rows h = absurd (ground arith)

module _ {P : Type 0} (query_of : String → Bool → Outcome OwnerFailure OwnerQuery)
    (owner_authorize : Option Authorizer) (pagers : Pagers P) (size : Answer P → ℕ) where
  -- A summary that is cut short or that hides a row says that it is partial and that its status is
  -- unknown; any other shows every row that the store lists for it, and has the status of those rows.
  pub direct-IsHonest :
      (store : Store) (headers : Dict String) (q : OwnerQuery) (identity : Value) (policy : String)
      (l : Listing)
      → direct query_of owner_authorize pagers size store headers summary_path q identity policy
        ≡ ok l
      → (rows : List OperationalIncident) × (list_incidents none (q.limit + 1) q.since store
          ≡ ok rows)
        × IsHonest rows l
  unfolding direct
  direct-IsHonest store headers q identity policy l h =
      let rows = then-ok (listed (list_incidents none (q.limit + 1) q.since store)) _ h in
      let see = visible query_of owner_authorize pagers size headers summary_path identity policy in
      let shown = then-ok (visible_rows see (take q.limit rows.0)) _ rows.2 in
      let known = visible_rows-whole see (take q.limit rows.0) shown.0 shown.1 in
      (
        rows.0,
        listed_one _ rows.0 rows.1,
        subst (IsHonest rows.0) (ok-injective shown.2) (
            listing_of-IsHonest rows.0 (take q.limit rows.0) shown.0 _ known.1
              (take-all q.limit rows.0)),
      )
