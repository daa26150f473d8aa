-- ===== src/Bookmarks/Coherent.antt =====
-- The store of tools/operational_bookmarks.py through captures and pages: its tokens and its marks
-- stand where pages begin.
use mathlib.Core.Path.{subst}
use ouf_api_gateway.Base.{
  ℕ, ◌≤◌, ◌≡◌, refl, sym, inl, inr, false, Option, none, some, String, List, [], ◌∷◌, ◌==◌, ◌≠◌,
  nat_eq, string_eq, Outcome, ok, raised, ok-injective, arith, Option-cases, All, All-select,
  All-map, select, eq_iff,
}
use ouf_api_gateway.Incidents.Store.{OperationalIncident}
use ouf_api_gateway.Cursor.Snapshot.{
  CursorRejected, Session, Token, Cursors, Query, purge, first_expired,
}
use ouf_api_gateway.Cursor.Pages.{find_session}
use ouf_api_gateway.Cursor.Captured.{Captured, capture-Captured}
use ouf_api_gateway.Bookmarks.Table.{PageMark}
use ouf_api_gateway.Bookmarks.Flow.{cascade, taken, capture_in}
use ouf_api_gateway.Bookmarks.Positions.{Positions, Draw, Caller, identity_of}
use ouf_api_gateway.Bookmarks.Places.{
  IsPlaced, ArePlaced, AreMarksPlaced, HaveOwnPlaces, select-HaveOwnPlaces, find_session-select,
}

pub record IsCoherent (c : Cursors) (ms : List PageMark) : Type 0 where
  pub limited : All (λ (s : Session). 1 ≤ s.page_limit) c.sessions
  pub placed : ArePlaced c.sessions c.tokens
  pub marked : AreMarksPlaced c.sessions ms
  pub own : HaveOwnPlaces ms

-- No row has the id of a session that is new.
abbrev pub IsFresh : String → Cursors → List PageMark → Type 0
IsFresh sid c ms =
    All (λ (t : Token). (t.session_id == sid) ≡ false) c.tokens
    × All (λ (m : PageMark). (m.session_id == sid) ≡ false) ms

abbrev marks_after : Option Session → List PageMark → List PageMark
marks_after none ms = ms
marks_after (some gone) ms = select (λ (m : PageMark). m.session_id ≠ gone.session_id) ms

pub cascade-marks :
    (old : Option Session) (p : Positions) → (cascade old p).marks ≡ marks_after old p.marks
cascade-marks none p = refl
cascade-marks (some gone) p = refl

less-IsPlaced :
    (gone id : String) (position : ℕ) (ss : List Session)
    → IsPlaced ss id position
    → IsPlaced (select (λ (s : Session). s.session_id ≠ gone) ss) id position
less-IsPlaced gone id position ss h s q = h s (find_session-select id gone ss s q)

-- The deletion of an expired session, with what hangs on it.
purge-IsCoherent :
    (now : String) (c : Cursors) (ms : List PageMark)
    → IsCoherent c ms
    → IsCoherent (purge now c) (marks_after (first_expired now c.sessions) ms)
unfolding purge
purge-IsCoherent now c ms h = elim (Option-cases (first_expired now c.sessions)) [
  | inl q ↦ rw (q, purge) h
  | inr (gone, q) ↦
      rw (q, purge)
        (record {
          limited = All-select _ (λ (s : Session). 1 ≤ s.page_limit) c.sessions h.limited;
          placed =
              All-map _ _ (λ t. less-IsPlaced gone.session_id t.session_id t.position c.sessions)
                (select (λ (t : Token). t.session_id ≠ gone.session_id) c.tokens)
                (All-select _ (λ (t : Token). IsPlaced c.sessions t.session_id t.position) c.tokens
                  h.placed);
          marked =
              All-map _ _ (λ m. less-IsPlaced gone.session_id m.session_id m.position c.sessions)
                (select (λ (m : PageMark). m.session_id ≠ gone.session_id) ms)
                (All-select _ (λ (m : PageMark). IsPlaced c.sessions m.session_id m.position) ms
                  h.marked);
          own = select-HaveOwnPlaces _ ms h.own;
        })
]

purge-IsFresh :
    (now sid : String) (c : Cursors) (ms : List PageMark)
    → IsFresh sid c ms
    → IsFresh sid (purge now c) (marks_after (first_expired now c.sessions) ms)
unfolding purge
purge-IsFresh now sid c ms (ts, fs) = elim (Option-cases (first_expired now c.sessions)) [
  | inl q ↦ rw (q, purge) (ts, fs)
  | inr (gone, q) ↦
      rw (q, purge)
        (
          All-select _ (λ (t : Token). (t.session_id == sid) ≡ false) c.tokens ts,
          All-select _ (λ (m : PageMark). (m.session_id == sid) ≡ false) ms fs,
        )
]

more-IsPlaced :
    (s : Session) (ss : List Session) (id : String) (position : ℕ)
    → (id == s.session_id) ≡ false
    → IsPlaced ss id position
    → IsPlaced (s ∷ ss) id position
unfolding find_session
more-IsPlaced s ss id position apart h x q =
    let other : (s.session_id == id) ≡ false =
      ground (arith, eq_iff s.session_id id, eq_iff id s.session_id) in
    h x (let q' = rw other at q in q')

more-ArePlaced :
    (s : Session) (ss : List Session) (ts : List Token)
    → All (λ (t : Token). (t.session_id == s.session_id) ≡ false) ts
    → ArePlaced ss ts
    → ArePlaced (s ∷ ss) ts
more-ArePlaced s ss [] f h = tt
more-ArePlaced s ss (t ∷ ts) (f, fs) (h, hs) =
    (more-IsPlaced s ss t.session_id t.position f h, more-ArePlaced s ss ts fs hs)

more-AreMarksPlaced :
    (s : Session) (ss : List Session) (ms : List PageMark)
    → All (λ (m : PageMark). (m.session_id == s.session_id) ≡ false) ms
    → AreMarksPlaced ss ms
    → AreMarksPlaced (s ∷ ss) ms
more-AreMarksPlaced s ss [] f h = tt
more-AreMarksPlaced s ss (m ∷ ms) (f, fs) (h, hs) =
    (more-IsPlaced s ss m.session_id m.position f h, more-AreMarksPlaced s ss ms fs hs)

added-IsCoherent :
    (token : String) (c : Cursors) (ms : List PageMark) (s : Session)
    → 1 ≤ s.page_limit
    → IsFresh s.session_id c ms
    → IsCoherent c ms
    → IsCoherent
        (record {
          sessions = s ∷ c.sessions;
          tokens = record { token = token; session_id = s.session_id; position = 0 } ∷ c.tokens;
        })
        ms
added-IsCoherent token c ms s positive (ts, fs) h = record {
  limited = (positive, h.limited);
  placed = ((λ x q. (0, omega arith, inl refl)), more-ArePlaced s c.sessions c.tokens ts h.placed);
  marked = more-AreMarksPlaced s c.sessions ms fs h.marked;
  own = h.own;
}

captured-IsCoherent :
    (sid token : String) (limit : ℕ) (c c' : Cursors) (ms : List PageMark)
    → Captured sid token limit c c'
    → 1 ≤ limit
    → IsFresh sid c ms
    → IsCoherent c ms
    → IsCoherent c' ms
captured-IsCoherent sid token limit c c' ms (s, named, limited, same) positive fresh h =
    subst (λ x. IsCoherent x ms) (sym same)
      (added-IsCoherent token c ms s (subst (λ n. 1 ≤ n) (sym limited) positive)
        (subst (λ id. IsFresh id c ms) (sym named) fresh) h)

abbrev pub IsSound : Positions → Type 0
IsSound p = IsCoherent p.cursors p.marks

taken-IsSound :
    (d : Draw) (limit : ℕ) (p p' : Positions) (r : Outcome CursorRejected Cursors)
    → ((c' : Cursors) → r ≡ ok c' → Captured d.sid d.token limit (purge d.now p.cursors) c')
    → taken (first_expired d.now p.cursors.sessions) p r ≡ ok p'
    → 1 ≤ limit
    → IsFresh d.sid p.cursors p.marks
    → IsSound p
    → IsSound p'
taken-IsSound d limit p p' (raised e) made q positive fresh h = absurd (ground arith)
taken-IsSound d limit p p' (ok c) made q positive fresh h =
    let old = first_expired d.now p.cursors.sessions in
    subst IsSound (ok-injective q) (
      subst (IsCoherent c) (sym (cascade-marks old p)) (
        captured-IsCoherent d.sid d.token limit (purge d.now p.cursors) c (marks_after old p.marks)
          (made c refl) positive (purge-IsFresh d.now d.sid p.cursors p.marks fresh)
          (purge-IsCoherent d.now p.cursors p.marks h)))

-- A capture keeps the store sound, where its session is new and its page holds at least one row.
pub capture_in-IsSound :
    (d : Draw) (baseline : String) (q : Query) (c : Caller) (policy : String) (lower : Option ℕ)
    (ts : List OperationalIncident) (p p' : Positions)
    → capture_in d baseline q c policy lower ts p ≡ ok p'
    → 1 ≤ q.limit
    → IsFresh d.sid p.cursors p.marks
    → IsSound p
    → IsSound p'
unfolding capture_in
capture_in-IsSound d baseline q c policy lower ts p p' h positive fresh sound =
    taken-IsSound d q.limit p p' _
      (λ c'.
        capture-Captured d.sid d.token d.now d.expiry baseline q (identity_of c) policy lower ts
          p.cursors c')
      h positive fresh sound
