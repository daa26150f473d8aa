-- ===== src/Cursor/Keyed.antt =====
-- The tokens of tools/operational_cursor.py are keys, whichever captures and pages come.
use mathlib.Core.Path.{subst}
use mathlib.Core.Option.{some-injective}
use ouf_api_gateway.Base.{
  Outcome, raised, ℕ, ◌≡◌, refl, sym, ap, ◌∙◌, inl, inr, Bool, false, ◌&&◌, Option, none, some,
  String, List, [], ◌∷◌, ◌==◌, nat_eq, string_eq, ok, arith, Bool-cases, Option-cases, All, select,
  eq_iff, eq_refl,
}
use ouf_api_gateway.Incidents.Store.{OperationalIncident}
use ouf_api_gateway.Cursor.Snapshot.{CursorRejected, Identity, Token, Cursors}
use ouf_api_gateway.Cursor.Pages.{
  Frame, Page, frame_of, find_token, token_at, next_position, has_more, advance_token, respond,
  served, check_frame, page,
}
use ouf_api_gateway.Cursor.Contract.{IsKeyed}
use ouf_api_gateway.Cursor.Snapshot.{Query, capture, purge, first_expired}
use ouf_api_gateway.Cursor.Captured.{Captured, capture-Captured}
use ouf_api_gateway.Base.{All-select, ◌≠◌}

-- No row has the token that a call draws.
abbrev pub IsNew : String → List Token → Type 0
IsNew new ts = All (λ (t : Token). (t.token == new) ≡ false) ts

other_token :
    (new t : String) (ts : List Token) (k : Token)
    → IsNew new ts
    → find_token t ts ≡ some k
    → (new == t) ≡ false
unfolding find_token
other_token new t [] k fresh h = absurd (ground arith)
other_token new t (x ∷ ts) k (apart, fresh) h = elim (Bool-cases (x.token == t)) [
  | inl on ↦ ground (arith, eq_iff x.token t, eq_iff x.token new, eq_iff new t)
  | inr off ↦ other_token new t ts k fresh (let h' = rw off at h in h')
]

-- A new token on a position that had none keeps the tokens keys.
added-IsKeyed :
    (new id : String) (position : ℕ) (ts : List Token)
    → IsNew new ts
    → IsKeyed ts
    → IsKeyed (record { token = new; session_id = id; position = position } ∷ ts)
unfolding token_at find_token
added-IsKeyed new id position ts fresh keyed s p t h =
    elim (Bool-cases ((id == s) && (position == p))) [
      | inl here ↦
          let same : new ≡ t = some-injective new t (let h' = rw here at h in h') in
          let at_id = (eq_iff id s).0 (ground arith) in
          let at_position : position ≡ p = ground arith in
          rw (same, eq_refl t, at_id, at_position) refl
      | inr apart ↦
          let k = keyed s p t (let h' = rw apart at h in h') in
          let other = other_token new t ts _ fresh k in rw other k
    ]

advance_token-IsKeyed :
    (new id : String) (position : ℕ) (c : Cursors)
    → IsNew new c.tokens
    → IsKeyed c.tokens
    → IsKeyed (advance_token new id position c).0.tokens
unfolding advance_token
advance_token-IsKeyed new id position c fresh keyed =
    elim (Option-cases (token_at id position c.tokens)) [
      | inr (old, q) ↦ rw q keyed
      | inl q ↦ rw q (added-IsKeyed new id position c.tokens fresh keyed)
    ]

module _ (authorize_item : OperationalIncident → Bool) (size : Page → ℕ) where
  respond-IsKeyed :
      (new token : String) (f : Frame) (c : Cursors)
      → IsNew new c.tokens
      → IsKeyed c.tokens
      → IsKeyed (respond authorize_item new token f c).0.tokens
  unfolding respond
  respond-IsKeyed new token f c fresh keyed = elim (Bool-cases (has_more f)) [
    | inr off ↦ rw (off, respond) keyed
    | inl on ↦
        rw (on, respond)
          (advance_token-IsKeyed new f.session.session_id (next_position f) c fresh keyed)
  ]

  served-IsKeyed :
      (new token : String) (c : Cursors) (r : Outcome CursorRejected Frame)
      → IsNew new c.tokens
      → IsKeyed c.tokens
      → IsKeyed (served authorize_item size new token c r).0.tokens
  served-IsKeyed new token c (raised e) fresh keyed = keyed
  served-IsKeyed new token c (ok f) fresh keyed = respond-IsKeyed new token f c fresh keyed

  pub page-IsKeyed :
      (new token now : String) (i : Identity) (policy_ref : String) (c : Cursors)
      → IsNew new c.tokens
      → IsKeyed c.tokens
      → IsKeyed (page authorize_item size new token now i policy_ref c).0.tokens
  unfolding page
  page-IsKeyed new token now i policy_ref c fresh keyed =
      served-IsKeyed new token c (check_frame now i policy_ref (frame_of token c)) fresh keyed

token_at-gone :
    (gone : String) (position : ℕ) (ts : List Token)
    → token_at gone position (select (λ (t : Token). t.session_id ≠ gone) ts) ≡ none
unfolding token_at
token_at-gone gone position [] = refl
token_at-gone gone position (t ∷ ts) = ground (arith, token_at-gone gone position ts)

token_at-kept :
    (gone id : String) (position : ℕ) (ts : List Token)
    → (id == gone) ≡ false
    → token_at id position (select (λ (t : Token). t.session_id ≠ gone) ts)
      ≡ token_at id position ts
unfolding token_at
token_at-kept gone id position [] apart = refl
token_at-kept gone id position (t ∷ ts) apart = ground (
  arith,
  eq_iff t.session_id gone,
  eq_iff t.session_id id,
  eq_iff id gone,
  token_at-kept gone id position ts apart,
)

find_token-kept :
    (gone token : String) (ts : List Token) (k : Token)
    → (k.session_id == gone) ≡ false
    → find_token token ts ≡ some k
    → find_token token (select (λ (t : Token). t.session_id ≠ gone) ts) ≡ some k
unfolding find_token
find_token-kept gone token [] k apart h = h
find_token-kept gone token (t ∷ ts) k apart h = elim (Bool-cases (t.token == token)) [
  | inl on ↦
      let same = some-injective t k (let h' = rw on at h in h') in
      let stays : (t.session_id == gone) ≡ false =
        subst (λ (x : Token). (x.session_id == gone) ≡ false) (sym same) apart in
      rw (stays, on) (ap some same)
  | inr off ↦
      let ih = find_token-kept gone token ts k apart (let h' = rw off at h in h') in
      elim (Bool-cases (t.session_id == gone)) [
        | inl away ↦ rw away ih
        | inr stays ↦ rw (stays, off) ih
      ]
]

deleted-IsKeyed :
    (gone : String) (ts : List Token)
    → IsKeyed ts
    → IsKeyed (select (λ (t : Token). t.session_id ≠ gone) ts)
deleted-IsKeyed gone ts keyed id position t h = elim (Bool-cases (id == gone)) [
  | inl same ↦ absurd (
      let q =
        subst (λ x. token_at x position (select (λ (y : Token). y.session_id ≠ gone) ts) ≡ some t)
          ((eq_iff id gone).0 same) h in
      let none_there = token_at-gone gone position ts in ground arith)
  | inr apart ↦
      find_token-kept gone t ts _ apart
        (keyed id position t (sym (token_at-kept gone id position ts apart) ∙ h))
]

purge-IsKeyed : (now : String) (c : Cursors) → IsKeyed c.tokens → IsKeyed (purge now c).tokens
unfolding purge
purge-IsKeyed now c keyed = elim (Option-cases (first_expired now c.sessions)) [
  | inl q ↦ rw (q, purge) keyed
  | inr (gone, q) ↦ rw (q, purge) (deleted-IsKeyed gone.session_id c.tokens keyed)
]

purge-IsNew : (now new : String) (c : Cursors) → IsNew new c.tokens → IsNew new (purge now c).tokens
unfolding purge
purge-IsNew now new c fresh = elim (Option-cases (first_expired now c.sessions)) [
  | inl q ↦ rw (q, purge) fresh
  | inr (gone, q) ↦
      rw (q, purge) (All-select _ (λ (t : Token). (t.token == new) ≡ false) c.tokens fresh)
]

Captured-IsKeyed :
    (sid token : String) (limit : ℕ) (c c' : Cursors)
    → IsNew token c.tokens
    → IsKeyed c.tokens
    → Captured sid token limit c c'
    → IsKeyed c'.tokens
Captured-IsKeyed sid token limit c c' fresh keyed (s, named, limited, same) =
    subst (λ (x : Cursors). IsKeyed x.tokens) (sym same)
      (added-IsKeyed token s.session_id 0 c.tokens fresh keyed)

-- A call on the cursors, whose drawn token no row has.
pub data Step : Cursors → Cursors → Type 0 where
  taken :
      (sid token now expiry baseline : String) (q : Query) (i : Identity) (policy_ref : String)
      (lower : Option ℕ) (ts : List OperationalIncident) {c c' : Cursors}
      → IsNew token c.tokens
      → capture sid token now expiry baseline q i policy_ref lower ts c ≡ ok c'
      → Step c c'
  paged :
      (authorize_item : OperationalIncident → Bool) (size : Page → ℕ) (new token now : String)
      (i : Identity) (policy_ref : String) (c : Cursors)
      → IsNew new c.tokens
      → Step c (page authorize_item size new token now i policy_ref c).0

pub data Reachable : Cursors → Type 0 where
  begun : Reachable (record { sessions = []; tokens = [] })
  next : {c c' : Cursors} → Reachable c → Step c c' → Reachable c'

Step-IsKeyed : {c c' : Cursors} → Step c c' → IsKeyed c.tokens → IsKeyed c'.tokens
Step-IsKeyed (taken sid token now expiry baseline q i policy_ref lower ts {c} {c'} fresh h) keyed =
    Captured-IsKeyed sid token q.limit (purge now c) c' (purge-IsNew now token c fresh)
      (purge-IsKeyed now c keyed)
      (capture-Captured sid token now expiry baseline q i policy_ref lower ts c c' h)
Step-IsKeyed (paged authorize_item size new token now i policy_ref c fresh) keyed =
    page-IsKeyed authorize_item size new token now i policy_ref c fresh keyed

pub Reachable-IsKeyed : {c : Cursors} → Reachable c → IsKeyed c.tokens
unfolding token_at
Reachable-IsKeyed begun id position t h = absurd (ground arith)
Reachable-IsKeyed (next r s) id position t h = Step-IsKeyed s (Reachable-IsKeyed r) id position t h
