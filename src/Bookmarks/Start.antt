-- ===== src/Bookmarks/Start.antt =====
-- `start` and `resume` of tools/operational_bookmarks.py.
use ouf_api_gateway.Base.{
  ℕ, Bool, Option, none, some, String, List, [], ◌∷◌, nat_eq, string_eq, option_eq, Outcome, ok,
  raised, if◌then◌else◌,
}
use ouf_api_gateway.Document.{Value, object}
use ouf_api_gateway.Incidents.Store.{Lifecycle, OperationalIncident}
use ouf_api_gateway.Cursor.Snapshot.{Session, Query}
use ouf_api_gateway.Cursor.Pages.{Page}
use ouf_api_gateway.Bookmarks.Table.{BookmarkRejected, Reader, Bookmark, authorize_reader, resume}
use ouf_api_gateway.Bookmarks.Positions.{
  Answer, Caller, CoveragePage, Draw, FlowRejected, Positions, bookmark_invalid, by_bookmark,
  coverage_query,
}
use ouf_api_gateway.Bookmarks.Flow.{capture_in, if_authorized, page, scope}

-- The parameters are those of `page`.
module _ (digest : Session → String) (size : CoveragePage → ℕ) (page_size : Page → ℕ)
    (authorize_collection : Option (Reader → String → Bool)) where
  -- A step that raises leaves the store as it was; one that returns leaves it to the next.
  abbrev pub onward : Positions → Outcome FlowRejected Positions → (Positions → Answer) → Answer
  onward p (raised e) k = (p, raised e)
  onward p (ok p') k = k p'

  abbrev pub for_query : Positions → Outcome FlowRejected Query → (Query → Answer) → Answer
  for_query p (raised e) k = (p, raised e)
  for_query p (ok q) k = k q

  -- `dump` and `load` are the encoding of the filters.
  module _ (dump : Option Lifecycle → String) (load : String → Option Lifecycle) (baseline : String)
      (ts : List OperationalIncident) where
    abbrev pub opened_with :
        Draw
        → Query
        → Caller
        → String
        → Option (OperationalIncident → Option Bool)
        → Option ℕ
        → Option String
        → Positions
        → Answer
    opened_with d q c policy authorize_item lower parent p =
        onward p (capture_in d baseline q c policy lower ts p) λ p1.
          onward p1
            (scope digest size page_size authorize_collection d.token (dump q.state) parent lower
              p1)
            λ p2.
              page digest size page_size authorize_collection d d.token c policy authorize_item p2

    -- `start(query, identity, policy, authorize_item)`
    unfoldable pub start :
        Draw
        → Value
        → Caller
        → String
        → Option (OperationalIncident → Option Bool)
        → Positions
        → Answer
    start d query c policy authorize_item p =
        if_authorized digest size page_size authorize_collection p
          (authorize_reader authorize_collection c.reader policy)
          λ p0.
            for_query p0 (coverage_query query)
              λ q. opened_with d q c policy authorize_item none none p0

    abbrev pub from_bookmark :
        Draw
        → Query
        → Caller
        → String
        → Option (OperationalIncident → Option Bool)
        → String
        → Positions
        → Outcome BookmarkRejected Bookmark
        → Answer
    from_bookmark d q c policy authorize_item token p (raised e) = (p, raised (by_bookmark e))
    from_bookmark d q c policy authorize_item token p (ok b) =
        opened_with d (record q { state = load b.filters }) c policy authorize_item
          (some b.watermark) (some token) p

    -- `resume(bookmark, identity, policy, authorize_item, limit)`; `is_token` tells a canonical
    -- nonzero UUID, and `floor` is the revision of the history's floor.
    unfoldable pub resume_from :
        (String → Bool)
        → ℕ
        → Draw
        → String
        → Value
        → Caller
        → String
        → Option (OperationalIncident → Option Bool)
        → Positions
        → Answer
    resume_from is_token floor d bookmark limit c policy authorize_item p =
        if_authorized digest size page_size authorize_collection p
          (authorize_reader authorize_collection c.reader policy)
          λ p0. for_query p0 (coverage_query (object (("limit", limit) ∷ []))) λ q.
            if is_token bookmark
            then from_bookmark d q c policy authorize_item bookmark p0
                (resume d.now floor c.reader policy bookmark p0.bookmarks)
            else (p0, raised bookmark_invalid)
