-- ===== src/Bookmarks/Flow.antt =====
-- `start`, `resume` and `page` of tools/operational_bookmarks.py over the cursors of
-- tools/operational_cursor.py, in one store.
use ouf_api_gateway.Base.{
  ℕ, Bool, true, false, not, ◌&&◌, Option, none, some, String, List, [], ◌∷◌, ◌==◌, ◌≠◌, nat_eq,
  string_eq, option_eq, Outcome, ok, raised, if◌then◌else◌, select, all, ltb,
}
use ouf_api_gateway.Incidents.Store.{OperationalIncident}
use ouf_api_gateway.Cursor.Snapshot.{
  CursorRejected, response_capacity, Session, Cursors, Query, capture, first_expired,
}
use ouf_api_gateway.Cursor.Pages.{Frame, Page, frame_of, page_rows, check_frame}
use ouf_api_gateway.Cursor.Pages as Pages
use ouf_api_gateway.Bookmarks.Table.{
  BookmarkRejected, scope_not_found, capture_changed, Reader, PageMark, Bookmark, Scoped,
  authorize_reader, mark_page, is_covered, issue,
}
use ouf_api_gateway.Bookmarks.Positions.{
  Answer, Caller, CoveragePage, Draw, FlowRejected, Positions, Scope, by_bookmark, by_cursor,
  identity_of, row_unavailable, row_unproven, unscoped,
}

abbrev pub is_decided : Option Bool → Bool
is_decided none = false
is_decided (some b) = true

abbrev pub is_allowed : Option Bool → Bool
is_allowed none = false
is_allowed (some b) = b

-- Each row of the frame is decided by a Boolean; where the frame is refused, no row is asked for.
abbrev pub rows_decided : (OperationalIncident → Option Bool) → Outcome CursorRejected Frame → Bool
rows_decided decide (raised e) = true
rows_decided decide (ok f) = all (λ item. is_decided (decide item)) (page_rows f)

abbrev pub find_scope : String → List Scope → Option Scope
find_scope id [] = none
find_scope id (s ∷ ss) = if s.session_id == id then some s else find_scope id ss

-- Deleting a session deletes its scope and its marks.
abbrev pub cascade : Option Session → Positions → Positions
cascade none p = p
cascade (some gone) p = record p {
  scopes = select (λ (s : Scope). s.session_id ≠ gone.session_id) p.scopes;
  marks = select (λ (m : PageMark). m.session_id ≠ gone.session_id) p.marks;
}

abbrev pub with_cursors : Cursors → Positions → Positions
with_cursors c p = record p { cursors = c }

abbrev pub taken :
    Option Session → Positions → Outcome CursorRejected Cursors → Outcome FlowRejected Positions
taken old p (raised e) = raised (by_cursor e)
taken old p (ok c) = ok (with_cursors c (cascade old p))

-- `_capture` in the store; `baseline` is the start of the history `ts`.
unfoldable pub capture_in :
    Draw
    → String
    → Query
    → Caller
    → String
    → Option ℕ
    → List OperationalIncident
    → Positions
    → Outcome FlowRejected Positions
capture_in d baseline q c policy lower ts p =
    taken (first_expired d.now p.cursors.sessions) p
      (capture d.sid d.token d.now d.expiry baseline q (identity_of c) policy lower ts p.cursors)

-- `digest` is `_frame_digest`, `size` and `page_size` the sizes of the encoded results, and
-- `authorize_collection` the host's.
module _ (digest : Session → String) (size : CoveragePage → ℕ) (page_size : Page → ℕ)
    (authorize_collection : Option (Reader → String → Bool)) where
  abbrev pub scoped_by :
      String → Option String → Option ℕ → Positions → Option Frame → Outcome FlowRejected Positions
  scoped_by filters parent parent_watermark p none = raised unscoped
  scoped_by filters parent parent_watermark p (some f) = ok (record p {
    scopes =
        record {
          session_id = f.session.session_id;
          filters = filters;
          parent_token = parent;
          frame_digest = digest f.session;
          parent_watermark = parent_watermark;
        }
        ∷ p.scopes;
  })

  -- `_scope`; the session is new, so that no row is there yet.
  unfoldable pub scope :
      String → String → Option String → Option ℕ → Positions → Outcome FlowRejected Positions
  scope token filters parent parent_watermark p =
      scoped_by filters parent parent_watermark p (frame_of token p.cursors)

  abbrev pub sized : Positions → CoveragePage → Answer
  sized p r = if ltb 524288 (size r) then (p, raised (by_cursor response_capacity)) else (p, ok r)

  abbrev pub bare : Page → CoveragePage
  bare result = record {
    page = result;
    publication_bookmark = none;
    parent_bookmark = none;
    no_progress = false;
  }

  abbrev pub with_bookmark : Page → Frame → Scope → String → CoveragePage
  with_bookmark result f s token = record {
    page = result;
    publication_bookmark = some token;
    parent_bookmark = s.parent_token;
    no_progress = s.parent_watermark == some f.session.watermark;
  }

  abbrev pub issued :
      Positions → Page → Frame → Scope → Outcome BookmarkRejected (List Bookmark × String) → Answer
  issued p result f s (raised e) = (p, raised (by_bookmark e))
  issued p result f s (ok (bs, token)) =
      sized (record p { bookmarks = bs }) (with_bookmark result f s token)

  abbrev pub row_of : Frame → Scope → Scoped
  row_of f s = record {
    session = f.session;
    filters = s.filters;
    parent_token = s.parent_token;
    frame_digest = s.frame_digest;
  }

  -- Behind the mark of the page: the bookmark, where all pages are read.
  abbrev pub concluded : Draw → Caller → String → Positions → Page → Frame → Scope → Answer
  concluded d c policy p result f s =
      if not result.truncated && not result.partial && is_covered f.session p.marks
      then issued p result f s (
          issue digest d.bookmark_token d.issued_at d.bookmark_expiry c.reader policy (row_of f s)
            p.cursors.sessions p.marks p.bookmarks)
      else sized p (bare result)

  abbrev pub marked : Frame → Page → Positions → Positions
  marked f result p = record p {
    marks = mark_page f.session.session_id f.position (not result.partial) p.marks;
  }

  abbrev pub in_scope : Draw → Caller → String → Positions → Page → Frame → Option Scope → Answer
  in_scope d c policy p result f none = (p, raised (by_bookmark scope_not_found))
  in_scope d c policy p result f (some s) =
      if digest f.session == s.frame_digest
      then concluded d c policy (marked f result p) result f s
      else (p, raised (by_bookmark capture_changed))

  abbrev pub framed_in : Draw → Caller → String → Positions → Page → Option Frame → Answer
  framed_in d c policy p result none = (p, raised (by_bookmark scope_not_found))
  framed_in d c policy p result (some f) =
      in_scope d c policy p result f (find_scope f.session.session_id p.scopes)

  -- Behind the page of the cursor, whose next token stays.
  abbrev pub noted :
      Draw → Caller → String → String → Positions → Cursors × Outcome CursorRejected Page → Answer
  noted d c policy token p (c', raised e) = (with_cursors c' p, raised (by_cursor e))
  noted d c policy token p (c', ok result) =
      framed_in d c policy (with_cursors c' p) result (frame_of token c')

  abbrev pub read_rows :
      Draw → String → Caller → String → (OperationalIncident → Option Bool) → Positions → Answer
  read_rows d token c policy decide p =
      if rows_decided decide (check_frame d.now (identity_of c) policy (frame_of token p.cursors))
      then noted d c policy token p (
          Pages.page (λ item. is_allowed (decide item)) page_size d.next_token token d.now
            (identity_of c) policy p.cursors)
      else (p, raised row_unproven)

  abbrev pub read_with :
      Draw
      → String
      → Caller
      → String
      → Option (OperationalIncident → Option Bool)
      → Positions
      → Answer
  read_with d token c policy none p = (p, raised row_unavailable)
  read_with d token c policy (some decide) p = read_rows d token c policy decide p

  abbrev pub if_authorized :
      Positions → Outcome BookmarkRejected (Unit {0}) → (Positions → Answer) → Answer
  if_authorized p (raised e) k = (p, raised (by_bookmark e))
  if_authorized p (ok _) k = k p

  -- `page(token, identity, policy, authorize_item)`; `none` is an authorizer that cannot be called
  -- and, of a row, a decision that is no Boolean.
  unfoldable pub page :
      Draw
      → String
      → Caller
      → String
      → Option (OperationalIncident → Option Bool)
      → Positions
      → Answer
  page d token c policy authorize_item p =
      if_authorized p (authorize_reader authorize_collection c.reader policy)
        (read_with d token c policy authorize_item)
