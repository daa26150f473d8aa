-- ===== src/Bookmarks/Tests/Flow.antt =====
-- A coverage session of two incidents that is started, and read a second time.
use ouf_api_gateway.Base.{
  ◌≡◌, refl, ℕ, Bool, true, false, Option, none, some, String, List, [], ◌∷◌, ok, string_eq, nat_eq,
  option_eq,
}
use ouf_api_gateway.Document.{object, keys_within}
use ouf_api_gateway.Incidents.Store.{OperationalIncident, Lifecycle, opened}
use ouf_api_gateway.Cursor.Snapshot.{Session, capture}
use ouf_api_gateway.Cursor.Pages.{Page, check_frame, frame_of}
use ouf_api_gateway.Cursor.Pages as Pages
use ouf_api_gateway.Incidents.Listing.{prioritized}
use ouf_api_gateway.Bookmarks.Table.{Reader, authorize_reader, mark_page, issue}
use ouf_api_gateway.Bookmarks.Flow.{capture_in, scope}
use ouf_api_gateway.Bookmarks.Start.{start}
use ouf_api_gateway.Bookmarks.Positions.{Positions, Draw, Caller, CoveragePage, coverage_query}
use ouf_api_gateway.Bookmarks.Flow.{page}
use ouf_api_gateway.Bookmarks.Complete.{IsCovered}
use ouf_api_gateway.Bookmarks.Reachable.{empty, Reachable, begun, next, started, page-IsCovered}

abbrev seen : String → OperationalIncident
seen id = record {
  incident_id = id;
  event_type = "GATEWAY_PUBLICATION_FAILED";
  lifecycle_state = opened;
  severity = "ERROR";
  first_seen_at = "2026-01-01T00:00:00Z";
  last_seen_at = "2026-01-01T00:00:00Z";
  resolved_at = none;
  correlation_id = none;
  endpoint_ref = none;
  error_code = none;
  impact_summary = "The publication failed.";
  action_required = true;
  dedup_key = id;
  occurrence_count = 1;
  visibility_class = "RESTRICTED_OPERATIONAL";
}

abbrev history : List OperationalIncident
history = seen "i2" ∷ seen "i1" ∷ []

abbrev caller : Caller
caller = record {
  reader = record {
    principal = "anna";
    tenant = "trieste";
    actor = "HUMAN";
    identity_digest = "a";
  };
  fingerprint = "f";
}

abbrev draw : Draw
draw = record {
  sid = "s1";
  token = "t1";
  next_token = "t2";
  bookmark_token = "b1";
  now = "2026-01-01T01:00:00Z";
  expiry = "2026-01-01T01:30:00Z";
  issued_at = "2026-01-01T01:00:01Z";
  bookmark_expiry = "2026-04-01T01:00:01Z";
}

abbrev digest : Session → String
digest s = s.session_id

abbrev size : CoveragePage → ℕ
size r = 100

abbrev page_size : Page → ℕ
page_size r = 100

abbrev collection : Option (Reader → String → Bool)
collection = some (λ r policy. true)

abbrev decide : Option (OperationalIncident → Option Bool)
decide = some (λ item. some true)

abbrev dump : Option Lifecycle → String
dump state = "{}"

abbrev load : String → Option Lifecycle
load filters = none

abbrev begun_store : Positions
begun_store =
    (start digest size page_size collection dump load "2026-01-01T00:00:00Z" history draw
      (object []) caller "p" decide empty).0

abbrev answer : CoveragePage
answer = record {
  page = record {
    items = seen "i1" ∷ seen "i2" ∷ [];
    partial = false;
    truncated = false;
    cursor = "t1";
    redacted = false;
    next_cursor = none;
  };
  publication_bookmark = some "b1";
  parent_bookmark = none;
  no_progress = false;
}

begun_store-Reachable : Reachable digest size page_size collection dump load begun_store
begun_store-Reachable =
    next begun
      (started "2026-01-01T00:00:00Z" history draw (object []) caller "p" decide empty (tt, tt))

read_again :
    (page digest size page_size collection draw "t1" caller "p" decide begun_store).1 ≡ ok answer
unfolding page start authorize_reader check_frame frame_of coverage_query keys_within capture_in
    capture prioritized scope Pages.page mark_page issue
read_again = refl

page-IsCovered_example :
    IsCovered "t1" (page digest size page_size collection draw "t1" caller "p" decide begun_store).0
page-IsCovered_example =
    page-IsCovered digest size page_size collection dump load draw "t1" caller "p" decide
      begun_store answer "b1" begun_store-Reachable read_again refl
