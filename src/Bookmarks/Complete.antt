-- ===== src/Bookmarks/Complete.antt =====
-- `start`, `resume` and `page` of tools/operational_bookmarks.py keep the store sound, and what a
-- page with a bookmark tells.
use mathlib.Core.Path.{subst}
use mathlib.Core.Option.{some-injective}
use ouf_api_gateway.Base.{
  ℕ, ◌≤◌, ◌≡◌, refl, sym, ◌∙◌, inl, inr, Bool, true, not, ◌&&◌, Option, none, some, String, List,
  [], ◌∷◌, ◌==◌, nat_eq, string_eq, option_eq, Outcome, ok, raised, arith, Bool-cases, All, length,
  ltb,
}
use ouf_api_gateway.Document.{Value, null, flag, integer, text, items, fields, find}
use ouf_api_gateway.Incidents.Store.{OperationalIncident}
use ouf_api_gateway.Cursor.Snapshot.{CursorRejected, Session, Cursors, Query}
use ouf_api_gateway.Cursor.Pages.{Frame, Page, frame_of, find_session, check_frame}
use ouf_api_gateway.Cursor.Contract.{frame_of-session}
use ouf_api_gateway.Bookmarks.Table.{
  BookmarkRejected, Reader, Bookmark, authorize_reader, is_covered,
}
use ouf_api_gateway.Bookmarks.Flow.{
  with_cursors, sized, bare, issued, concluded, marked, in_scope, find_scope, framed_in, noted,
  is_allowed, rows_decided, read_with, if_authorized,
}
use ouf_api_gateway.Bookmarks.Positions.{
  Scope, Positions, Draw, Caller, identity_of, CoveragePage, Answer, coverage_query, checked_limit,
  checked_state, query_with,
}
use ouf_api_gateway.Bookmarks.Flow.{page}
use ouf_api_gateway.Bookmarks.Places.{
  IsStart, IsPlaced, frame_of-IsStart, mark_page-All, mark_page-HaveOwnPlaces,
}
use ouf_api_gateway.Bookmarks.Coherent.{IsCoherent, IsSound}
use ouf_api_gateway.Bookmarks.Paged.{page-IsCoherent}
use ouf_api_gateway.Bookmarks.Read.{all_read, covered-all_read}

-- The session that the cursor names has been read: each item lies on a page that is marked
-- complete.
abbrev pub IsCovered : String → Positions → Type 0
IsCovered token p =
    (f : Frame) × (frame_of token p.cursors ≡ some f)
    × (all_read f.session p.marks (length f.session.items) ≡ true)

abbrev pub Tells : String → Positions → Option String → Type 0
Tells token p none = Unit
Tells token p (some b) = IsCovered token p

-- An answer leaves a sound store, and a bookmark tells that its session has been read.
abbrev pub IsHonest : String → Answer → Type 0
IsHonest token (p, raised e) = IsSound p
IsHonest token (p, ok r) = IsSound p × Tells token p r.publication_bookmark

pub honest-IsSound : (token : String) (x : Answer) → IsHonest token x → IsSound x.0
honest-IsSound token (p, raised e) h = h
honest-IsSound token (p, ok r) h = h.0

found-limit :
    (id : String) (ss : List Session) (s : Session)
    → All (λ (x : Session). 1 ≤ x.page_limit) ss
    → find_session id ss ≡ some s
    → 1 ≤ s.page_limit
unfolding find_session
found-limit id [] s h q = absurd (ground arith)
found-limit id (x ∷ ss) s (b, h) q = elim (Bool-cases (x.session_id == id)) [
  | inl on ↦
      subst (λ (y : Session). 1 ≤ y.page_limit) (some-injective x s (let q' = rw on at q in q')) b
  | inr off ↦ found-limit id ss s h (let q' = rw off at q in q')
]

pub coverage_query-limit : (v : Value) (q : Query) → coverage_query v ≡ ok q → 1 ≤ q.limit
unfolding coverage_query
coverage_query-limit (fields fs) q h = with_limit (find "limit" fs) (find "state" fs) (ground arith)
  where
    with_limit :
        (l s : Option Value) → query_with (checked_limit l) (checked_state s) ≡ ok q → 1 ≤ q.limit
    with_limit l s k = ground arith
coverage_query-limit null q h = absurd (ground arith)
coverage_query-limit (flag b) q h = absurd (ground arith)
coverage_query-limit (integer n) q h = absurd (ground arith)
coverage_query-limit (text s) q h = absurd (ground arith)
coverage_query-limit (items xs) q h = absurd (ground arith)

module _ (digest : Session → String) (size : CoveragePage → ℕ) (page_size : Page → ℕ)
    (authorize_collection : Option (Reader → String → Bool)) where
  sized-IsHonest :
      (token : String) (p : Positions) (r : CoveragePage)
      → IsSound p
      → Tells token p r.publication_bookmark
      → IsHonest token (sized digest size page_size authorize_collection p r)
  sized-IsHonest token p r sound tells = elim (Bool-cases (ltb 524288 (size r))) [
    | inl big ↦ rw big sound
    | inr fine ↦ rw fine (sound, tells)
  ]

  issued-IsHonest :
      (token : String) (p : Positions) (result : Page) (f : Frame) (s : Scope)
      (x : Outcome BookmarkRejected (List Bookmark × String))
      → IsSound p
      → IsCovered token p
      → IsHonest token (issued digest size page_size authorize_collection p result f s x)
  issued-IsHonest token p result f s (raised e) sound covered = sound
  issued-IsHonest token p result f s (ok (bs, t)) sound covered =
      sized-IsHonest token (record p { bookmarks = bs }) _ sound covered

  marked-IsSound :
      (token : String) (p : Positions) (result : Page) (f : Frame)
      → frame_of token p.cursors ≡ some f
      → IsSound p
      → IsSound (marked digest size page_size authorize_collection f result p)
  marked-IsSound token p result f found sound =
      let there = frame_of-session token p.cursors f found in
      let begins = frame_of-IsStart token p.cursors f sound.placed found in
      record {
        limited = sound.limited;
        placed = sound.placed;
        marked =
            mark_page-All (IsPlaced p.cursors.sessions) f.session.session_id f.position _ p.marks
              (λ s q.
                subst (λ x. IsStart x f.position) (some-injective f.session s (sym there ∙ q))
                  begins)
              sound.marked;
        own = mark_page-HaveOwnPlaces f.session.session_id f.position _ p.marks sound.own;
      }

  concluded-IsHonest :
      (d : Draw) (token : String) (c : Caller) (policy : String) (p : Positions) (result : Page)
      (f : Frame) (s : Scope)
      → frame_of token p.cursors ≡ some f
      → IsSound p
      → IsHonest token
          (concluded digest size page_size authorize_collection d c policy p result f s)
  concluded-IsHonest d token c policy p result f s found sound =
      elim (Bool-cases
        (not result.truncated && not result.partial && is_covered f.session p.marks)) [
          | inr off ↦ rw off (
              sized-IsHonest token p (bare digest size page_size authorize_collection result) sound
                tt)
          | inl on ↦
              let there = frame_of-session token p.cursors f found in
              rw on (
                issued-IsHonest token p result f s _ sound (
                  f,
                  found,
                  covered-all_read p.cursors.sessions f.session p.marks there
                      (found-limit f.session.session_id p.cursors.sessions f.session sound.limited
                        there)
                      sound.marked sound.own (ground arith) (length f.session.items) (omega arith),
                ))
        ]

  in_scope-IsHonest :
      (d : Draw) (token : String) (c : Caller) (policy : String) (p : Positions) (result : Page)
      (f : Frame) (s : Option Scope)
      → frame_of token p.cursors ≡ some f
      → IsSound p
      → IsHonest token (in_scope digest size page_size authorize_collection d c policy p result f s)
  in_scope-IsHonest d token c policy p result f none found sound = sound
  in_scope-IsHonest d token c policy p result f (some s) found sound =
      elim (Bool-cases (digest f.session == s.frame_digest)) [
        | inr changed ↦ rw changed sound
        | inl same ↦ rw same (
            concluded-IsHonest d token c policy _ result f s found
              (marked-IsSound token p result f found sound))
      ]

  framed_in-IsHonest :
      (d : Draw) (token : String) (c : Caller) (policy : String) (p : Positions) (result : Page)
      (o : Option Frame)
      → frame_of token p.cursors ≡ o
      → IsSound p
      → IsHonest token (framed_in digest size page_size authorize_collection d c policy p result o)
  framed_in-IsHonest d token c policy p result none found sound = sound
  framed_in-IsHonest d token c policy p result (some f) found sound =
      in_scope-IsHonest d token c policy p result f (find_scope f.session.session_id p.scopes) found
        sound

  noted-IsHonest :
      (d : Draw) (token : String) (c : Caller) (policy : String) (p : Positions)
      (x : Cursors × Outcome CursorRejected Page)
      → IsCoherent x.0 p.marks
      → IsHonest token (noted digest size page_size authorize_collection d c policy token p x)
  noted-IsHonest d token c policy p (c', raised e) coherent = coherent
  noted-IsHonest d token c policy p (c', ok result) coherent =
      framed_in-IsHonest d token c policy (with_cursors c' p) result (frame_of token c') refl
        coherent

  read_with-IsHonest :
      (d : Draw) (token : String) (c : Caller) (policy : String)
      (authorize_item : Option (OperationalIncident → Option Bool)) (p : Positions)
      → IsSound p
      → IsHonest token
          (read_with digest size page_size authorize_collection d token c policy authorize_item p)
  read_with-IsHonest d token c policy none p sound = sound
  read_with-IsHonest d token c policy (some decide) p sound =
      elim (Bool-cases (
        rows_decided decide
          (check_frame d.now (identity_of c) policy (frame_of token p.cursors)))) [
            | inr undecided ↦ rw undecided sound
            | inl decided ↦ rw decided (
                noted-IsHonest d token c policy p _ (
                  page-IsCoherent (λ item. is_allowed (decide item)) page_size d.next_token token
                    d.now (identity_of c) policy p.cursors p.marks sound))
          ]

  pub authorized-IsHonest :
      (token : String) (p : Positions) (r : Outcome BookmarkRejected (Unit {0}))
      (k : Positions → Answer)
      → IsSound p
      → IsHonest token (k p)
      → IsHonest token (if_authorized digest size page_size authorize_collection p r k)
  authorized-IsHonest token p (raised e) k sound h = sound
  authorized-IsHonest token p (ok _) k sound h = h

  pub page-IsHonest :
      (d : Draw) (token : String) (c : Caller) (policy : String)
      (authorize_item : Option (OperationalIncident → Option Bool)) (p : Positions)
      → IsSound p
      → IsHonest token
          (page digest size page_size authorize_collection d token c policy authorize_item p)
  unfolding page
  page-IsHonest d token c policy authorize_item p sound =
      authorized-IsHonest token p (authorize_reader authorize_collection c.reader policy) _ sound
        (read_with-IsHonest d token c policy authorize_item p sound)
