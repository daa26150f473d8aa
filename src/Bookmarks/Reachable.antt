-- ===== src/Bookmarks/Reachable.antt =====
-- Every store that the calls of tools/operational_bookmarks.py and tools/operational_cursor.py
-- reach, in whichever order they come.
use mathlib.Core.Path.{subst}
use ouf_api_gateway.Base.{
  ap, ok-injective, ℕ, ◌≤◌, ◌≡◌, refl, ◌∙◌, Bool, Option, none, some, String, List, [], ◌∷◌,
  Outcome, ok, raised, inl, inr, arith, Bool-cases,
}
use ouf_api_gateway.Document.{Value, object}
use ouf_api_gateway.Incidents.Store.{Lifecycle, OperationalIncident}
use ouf_api_gateway.Cursor.Snapshot.{Identity, Session, Query}
use ouf_api_gateway.Cursor.Pages.{Page, frame_of}
use ouf_api_gateway.Cursor.Pages as Pages
use ouf_api_gateway.Bookmarks.Table.{BookmarkRejected, Reader, Bookmark, authorize_reader, resume}
use ouf_api_gateway.Bookmarks.Flow.{with_cursors, capture_in, scoped_by, scope}
use ouf_api_gateway.Bookmarks.Start.{
  onward, for_query, opened_with, start, from_bookmark, resume_from,
}
use ouf_api_gateway.Bookmarks.Positions.{
  FlowRejected, Positions, Draw, Caller, CoveragePage, Answer, coverage_query,
}
use ouf_api_gateway.Bookmarks.Flow.{page}
use ouf_api_gateway.Bookmarks.Coherent.{IsFresh, IsSound, capture_in-IsSound}
use ouf_api_gateway.Bookmarks.Paged.{page-IsCoherent}
use ouf_api_gateway.Bookmarks.Complete.{
  IsCovered, Tells, IsHonest, honest-IsSound, coverage_query-limit, page-IsHonest,
  authorized-IsHonest,
}

abbrev pub empty : Positions
empty = record {
  cursors = record { sessions = []; tokens = [] };
  scopes = [];
  marks = [];
  bookmarks = [];
}

module _ (digest : Session → String) (size : CoveragePage → ℕ) (page_size : Page → ℕ)
    (authorize_collection : Option (Reader → String → Bool)) (dump : Option Lifecycle → String)
    (load : String → Option Lifecycle) where
  scoped_by-IsSound :
      (p p' : Positions) (filters : String) (parent : Option String) (w : Option ℕ)
      (o : Option Pages.Frame)
      → scoped_by digest size page_size authorize_collection filters parent w p o ≡ ok p'
      → IsSound p
      → IsSound p'
  scoped_by-IsSound p p' filters parent w none h sound = absurd (ground arith)
  scoped_by-IsSound p p' filters parent w (some f) h sound = subst IsSound (ok-injective h) sound

  scope-IsSound :
      (p p' : Positions) (token filters : String) (parent : Option String) (w : Option ℕ)
      → scope digest size page_size authorize_collection token filters parent w p ≡ ok p'
      → IsSound p
      → IsSound p'
  unfolding scope
  scope-IsSound p p' token filters parent w h sound =
      scoped_by-IsSound p p' filters parent w (frame_of token p.cursors) h sound

  onward-IsHonest :
      (token : String) (p : Positions) (r : Outcome FlowRejected Positions) (k : Positions → Answer)
      → IsSound p
      → ((p' : Positions) → r ≡ ok p' → IsHonest token (k p'))
      → IsHonest token (onward digest size page_size authorize_collection p r k)
  onward-IsHonest token p (raised e) k sound h = sound
  onward-IsHonest token p (ok p') k sound h = h p' refl

  for_query-IsHonest :
      (token : String) (p : Positions) (r : Outcome FlowRejected Query) (k : Query → Answer)
      → IsSound p
      → ((q : Query) → r ≡ ok q → IsHonest token (k q))
      → IsHonest token (for_query digest size page_size authorize_collection p r k)
  for_query-IsHonest token p (raised e) k sound h = sound
  for_query-IsHonest token p (ok q) k sound h = h q refl

  module _ (baseline : String) (ts : List OperationalIncident) where
    opened_with-IsHonest :
        (d : Draw) (q : Query) (c : Caller) (policy : String)
        (authorize_item : Option (OperationalIncident → Option Bool)) (lower : Option ℕ)
        (parent : Option String) (p : Positions)
        → 1 ≤ q.limit
        → IsFresh d.sid p.cursors p.marks
        → IsSound p
        → IsHonest d.token (
            opened_with digest size page_size authorize_collection dump load baseline ts d q c
              policy authorize_item lower parent p)
    opened_with-IsHonest d q c policy authorize_item lower parent p positive fresh sound =
        onward-IsHonest d.token p (capture_in d baseline q c policy lower ts p) _ sound (λ p1 taken.
          let sound1 =
            capture_in-IsSound d baseline q c policy lower ts p p1 taken positive fresh sound in
          onward-IsHonest d.token p1 _ _ sound1 (λ p2 scoped.
            page-IsHonest digest size page_size authorize_collection d d.token c policy
              authorize_item p2
              (scope-IsSound p1 p2 d.token (dump q.state) parent lower scoped sound1)))

    start-IsHonest :
        (d : Draw) (query : Value) (c : Caller) (policy : String)
        (authorize_item : Option (OperationalIncident → Option Bool)) (p : Positions)
        → IsFresh d.sid p.cursors p.marks
        → IsSound p
        → IsHonest d.token (
            start digest size page_size authorize_collection dump load baseline ts d query c policy
              authorize_item p)
    unfolding start
    start-IsHonest d query c policy authorize_item p fresh sound =
        authorized-IsHonest digest size page_size authorize_collection d.token p
          (authorize_reader authorize_collection c.reader policy) _ sound
          (for_query-IsHonest d.token p (coverage_query query) _ sound (λ q read.
            opened_with-IsHonest d q c policy authorize_item none none p
              (coverage_query-limit query q read) fresh sound))

    from_bookmark-IsHonest :
        (d : Draw) (q : Query) (c : Caller) (policy : String)
        (authorize_item : Option (OperationalIncident → Option Bool)) (token : String)
        (p : Positions) (r : Outcome BookmarkRejected Bookmark)
        → 1 ≤ q.limit
        → IsFresh d.sid p.cursors p.marks
        → IsSound p
        → IsHonest d.token (
            from_bookmark digest size page_size authorize_collection dump load baseline ts d q c
              policy authorize_item token p r)
    from_bookmark-IsHonest d q c policy authorize_item token p (raised e) positive fresh sound =
        sound
    from_bookmark-IsHonest d q c policy authorize_item token p (ok b) positive fresh sound =
        opened_with-IsHonest d (record q { state = load b.filters }) c policy authorize_item
          (some b.watermark) (some token) p positive fresh sound

    resume_from-IsHonest :
        (is_token : String → Bool) (floor : ℕ) (d : Draw) (bookmark : String) (limit : Value)
        (c : Caller) (policy : String) (authorize_item : Option (OperationalIncident → Option Bool))
        (p : Positions)
        → IsFresh d.sid p.cursors p.marks
        → IsSound p
        → IsHonest d.token (
            resume_from digest size page_size authorize_collection dump load baseline ts is_token
              floor d bookmark limit c policy authorize_item p)
    unfolding resume_from
    resume_from-IsHonest is_token floor d bookmark limit c policy authorize_item p fresh sound =
        authorized-IsHonest digest size page_size authorize_collection d.token p
          (authorize_reader authorize_collection c.reader policy) _ sound
          (for_query-IsHonest d.token p (coverage_query (object (("limit", limit) ∷ []))) _ sound
            (λ q read. elim (Bool-cases (is_token bookmark)) [
              | inr other ↦ rw other sound
              | inl canonical ↦ rw canonical (
                  from_bookmark-IsHonest d q c policy authorize_item bookmark p
                    (resume d.now floor c.reader policy bookmark p.bookmarks)
                    (coverage_query-limit (object (("limit", limit) ∷ [])) q read) fresh sound)
            ]))

  -- A call on the store. A capture draws an id that no row has; `captured` and `paged` are the ones
  -- of the cursor alone, whose query holds a limit of at least 1.
  pub data Step : Positions → Positions → Type 0 where
    captured :
        (d : Draw) (baseline : String) (q : Query) (c : Caller) (policy : String) (lower : Option ℕ)
        (ts : List OperationalIncident) {p p' : Positions}
        → 1 ≤ q.limit
        → IsFresh d.sid p.cursors p.marks
        → capture_in d baseline q c policy lower ts p ≡ ok p'
        → Step p p'
    paged :
        (allows : OperationalIncident → Bool) (new token now : String) (i : Identity)
        (policy : String) (p : Positions)
        → Step p (with_cursors (Pages.page allows page_size new token now i policy p.cursors).0 p)
    started :
        (baseline : String) (ts : List OperationalIncident) (d : Draw) (query : Value) (c : Caller)
        (policy : String) (authorize_item : Option (OperationalIncident → Option Bool))
        (p : Positions)
        → IsFresh d.sid p.cursors p.marks
        → Step p
            (start digest size page_size authorize_collection dump load baseline ts d query c policy
              authorize_item p).0
    resumed :
        (baseline : String) (ts : List OperationalIncident) (is_token : String → Bool) (floor : ℕ)
        (d : Draw) (bookmark : String) (limit : Value) (c : Caller) (policy : String)
        (authorize_item : Option (OperationalIncident → Option Bool)) (p : Positions)
        → IsFresh d.sid p.cursors p.marks
        → Step p
            (resume_from digest size page_size authorize_collection dump load baseline ts is_token
              floor d bookmark limit c policy authorize_item p).0
    read :
        (d : Draw) (token : String) (c : Caller) (policy : String)
        (authorize_item : Option (OperationalIncident → Option Bool)) (p : Positions)
        → Step p
            (page digest size page_size authorize_collection d token c policy authorize_item p).0

  pub data Reachable : Positions → Type 0 where
    begun : Reachable empty
    next : {p p' : Positions} → Reachable p → Step p p' → Reachable p'

  Step-IsSound : {p p' : Positions} → Step p p' → IsSound p → IsSound p'
  Step-IsSound (captured d baseline q c policy lower ts {p} {p'} positive fresh h) sound =
      capture_in-IsSound d baseline q c policy lower ts p p' h positive fresh sound
  Step-IsSound (paged allows new token now i policy p) sound =
      page-IsCoherent allows page_size new token now i policy p.cursors p.marks sound
  Step-IsSound (started baseline ts d query c policy authorize_item p fresh) sound =
      honest-IsSound d.token
        (start digest size page_size authorize_collection dump load baseline ts d query c policy
          authorize_item p)
        (start-IsHonest baseline ts d query c policy authorize_item p fresh sound)
  Step-IsSound (resumed baseline ts is_token floor d bookmark limit c policy authorize_item p fresh)
        sound =
      honest-IsSound d.token
        (resume_from digest size page_size authorize_collection dump load baseline ts is_token floor
          d bookmark limit c policy authorize_item p)
        (resume_from-IsHonest baseline ts is_token floor d bookmark limit c policy authorize_item p
          fresh sound)
  Step-IsSound (read d token c policy authorize_item p) sound =
      honest-IsSound token
        (page digest size page_size authorize_collection d token c policy authorize_item p)
        (page-IsHonest digest size page_size authorize_collection d token c policy authorize_item p
          sound)

  pub Reachable-IsSound : {p : Positions} → Reachable p → IsSound p
  Reachable-IsSound begun = record { limited = tt; placed = tt; marked = tt; own = tt }
  Reachable-IsSound (next r s) = Step-IsSound s (Reachable-IsSound r)

  told-IsCovered :
      (token : String) (x : Answer) (r : CoveragePage) (b : String)
      → IsHonest token x
      → x.1 ≡ ok r
      → r.publication_bookmark ≡ some b
      → IsCovered token x.0
  told-IsCovered token (p, raised e) r b h q tells = absurd (ground arith)
  told-IsCovered token (p, ok r') r b (sound, h) q tells =
      let same : r'.publication_bookmark ≡ some b =
        ap (λ (y : CoveragePage). y.publication_bookmark) (ok-injective q) ∙ tells in
      subst (Tells token p) same h

  -- In every store that captures, pages, starts and resumptions reach, in whichever order they
  -- come: a page that carries a publication bookmark is one of a session each of whose items lies
  -- on a page that is marked complete, however often and in whichever order its pages were read.
  pub page-IsCovered :
      (d : Draw) (token : String) (c : Caller) (policy : String)
      (authorize_item : Option (OperationalIncident → Option Bool)) (p : Positions)
      (r : CoveragePage) (b : String)
      → Reachable p
      → (page digest size page_size authorize_collection d token c policy authorize_item p).1 ≡ ok r
      → r.publication_bookmark ≡ some b
      → IsCovered token
          (page digest size page_size authorize_collection d token c policy authorize_item p).0
  page-IsCovered d token c policy authorize_item p r b reached q tells =
      told-IsCovered token
        (page digest size page_size authorize_collection d token c policy authorize_item p) r b
        (page-IsHonest digest size page_size authorize_collection d token c policy authorize_item p
          (Reachable-IsSound reached))
        q tells
