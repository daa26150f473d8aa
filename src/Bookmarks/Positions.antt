-- ===== src/Bookmarks/Positions.antt =====
-- The state of tools/operational_bookmarks.py, and the checks of a query.
use ouf_api_gateway.Base.{
  ℕ, Bool, ◌&&◌, Option, none, some, String, List, [], ◌∷◌, ◌==◌, nat_eq, string_eq, option_eq,
  Outcome, ok, raised, if◌then◌else◌, leb,
}
use ouf_api_gateway.Base.Int.{pos}
use ouf_api_gateway.Document.{Value, text, integer, fields, find, keys_within}
use ouf_api_gateway.Incidents.Store.{Lifecycle, opened, recovering, resolved}
use ouf_api_gateway.Cursor.Snapshot.{CursorRejected, Identity, Cursors, Query}
use ouf_api_gateway.Cursor.Pages.{Page}
use ouf_api_gateway.Bookmarks.Table.{BookmarkRejected, Reader, PageMark, Bookmark}

-- The exceptions of both classes. `unscoped` is the TypeError of reading a frame that is not there.
pub data FlowRejected : Type 0 where
  by_cursor : CursorRejected → FlowRejected
  by_bookmark : BookmarkRejected → FlowRejected
  query_invalid bookmark_invalid row_unavailable row_unproven unscoped : FlowRejected

-- A row of `gateway_bookmark_scope`.
pub record Scope : Type 0 where
  pub session_id : String
  pub filters : String
  pub parent_token : Option String
  pub frame_digest : String
  pub parent_watermark : Option ℕ

pub record Positions : Type 0 where
  pub cursors : Cursors
  pub scopes : List Scope
  pub marks : List PageMark
  pub bookmarks : List Bookmark

-- The `uuid4()`s that a call may draw, what its clock shows, and thirty minutes and ninety days
-- later. `issued_at` is the clock when the bookmark is issued.
pub record Draw : Type 0 where
  pub sid : String
  pub token : String
  pub next_token : String
  pub bookmark_token : String
  pub now : String
  pub expiry : String
  pub issued_at : String
  pub bookmark_expiry : String

-- The caller, with the digest of the whole identity beside the one of a reader.
pub record Caller : Type 0 where
  pub reader : Reader
  pub fingerprint : String

abbrev pub identity_of : Caller → Identity
identity_of c = record {
  principal = c.reader.principal;
  tenant = c.reader.tenant;
  fingerprint = c.fingerprint;
}

pub record CoveragePage : Type 0 where
  pub page : Page
  pub publication_bookmark : Option String
  pub parent_bookmark : Option String
  pub no_progress : Bool

abbrev pub Answer : Type 0
Answer = Positions × Outcome FlowRejected CoveragePage

abbrev pub checked_limit : Option Value → Option ℕ
checked_limit none = some 50
checked_limit (some (integer (pos n))) = if leb 1 n && leb n 100 then some n else none
checked_limit (some other) = none

abbrev pub named_state : String → Option (Option Lifecycle)
named_state s =
    if s == "OPEN"
    then some (some opened)
    else if s == "RECOVERING"
    then some (some recovering)
    else if s == "RESOLVED"
    then some (some resolved)
    else none

abbrev pub checked_state : Option Value → Option (Option Lifecycle)
checked_state none = some none
checked_state (some (text s)) = named_state s
checked_state (some other) = none

abbrev pub query_with : Option ℕ → Option (Option Lifecycle) → Outcome FlowRejected Query
query_with none state = raised query_invalid
query_with (some limit) none = raised query_invalid
query_with (some limit) (some state) = ok (record { state = state; since = none; limit = limit })

-- `_query(query)`, with the limit that `_capture` reads of the query.
unfoldable pub coverage_query : Value → Outcome FlowRejected Query
unfolding find
coverage_query (fields q) =
    if keys_within ("state" ∷ "limit" ∷ []) q
    then query_with (checked_limit (find "limit" q)) (checked_state (find "state" q))
    else raised query_invalid
coverage_query other = raised query_invalid
