-- ===== src/Cursor/Tests.antt =====
-- A concrete snapshot and its first page.
use ouf_api_gateway.Base.{
  ◌⊎◌, ◌≡◌, refl, ℕ, Bool, true, false, none, some, String, List, [], ◌∷◌, ok, string_eq, nat_eq,
  arith, length, sym, select,
}
use ouf_api_gateway.Incidents.Store.{OperationalIncident, opened}
use ouf_api_gateway.Incidents.Listing.{is_in, prioritized, insert_before, is_before}
use ouf_api_gateway.Cursor.Snapshot.{
  Identity, Session, Cursors, Query, capture, purge, first_expired, has_room, available_items,
  used_items, snapshot_rows, latest_rows,
}
use ouf_api_gateway.Cursor.Pages.{
  Frame, Page, page, frame_of, find_token, find_session, check_frame, is_owner, respond, first_part,
  advance_token, token_at,
}
use ouf_api_gateway.Cursor.Bounds.{IsWithin, capture-IsWithin}
use mathlib.Core.Path.{subst}
use ouf_api_gateway.Cursor.Keyed.{Reachable, begun, next, taken}
use ouf_api_gateway.Cursor.Walk.{ReadsOn, last, more, IsWhole, ReadsOn-IsWhole}
use ouf_api_gateway.Cursor.Finish.{Halts, reading_returns}

abbrev seen : String → OperationalIncident
seen id = record {
  incident_id = id;
  event_type = "GATEWAY_PUBLICATION_FAILED";
  lifecycle_state = opened;
  severity = "ERROR";
  first_seen_at = "2026-01-01T00:00:00Z";
  last_seen_at = "2026-01-01T00:00:00Z";
  resolved_at = none;
  correlation_id = none;
  endpoint_ref = none;
  error_code = none;
  impact_summary = "The publication failed.";
  action_required = true;
  dedup_key = id;
  occurrence_count = 1;
  visibility_class = "RESTRICTED_OPERATIONAL";
}

abbrev reader : Identity
reader = record { principal = "anna"; tenant = "trieste"; fingerprint = "f" }

abbrev query : Query
query = record { state = none; since = none; limit = 1 }

abbrev history : List OperationalIncident
history = seen "i2" ∷ seen "i1" ∷ seen "i2" ∷ []

abbrev empty_cursors : Cursors
empty_cursors = record { sessions = []; tokens = [] }

abbrev session : Session
session = record {
  session_id = "s1";
  principal = "anna";
  tenant = "trieste";
  fingerprint = "f";
  policy_ref = "p";
  page_limit = 1;
  created_at = "2026-01-01T01:00:00Z";
  expires_at = "2026-01-01T01:30:00Z";
  history_gap = false;
  watermark = 3;
  items = seen "i1" ∷ seen "i2" ∷ [];
}

abbrev captured : Cursors
captured = record {
  sessions = session ∷ [];
  tokens = record { token = "t1"; session_id = "s1"; position = 0 } ∷ [];
}

snapshot_taken :
    capture "s1" "t1" "2026-01-01T01:00:00Z" "2026-01-01T01:30:00Z" "2026-01-01T00:00:00Z" query
      reader "p" none history empty_cursors
    ≡ ok captured
unfolding capture purge first_expired has_room available_items used_items snapshot_rows latest_rows
    prioritized insert_before is_before is_in
snapshot_taken = refl

empty-IsWithin : IsWithin []
unfolding used_items
empty-IsWithin = record { few = omega arith; light = omega arith; each = tt }

capture-IsWithin_example :
    IsWithin captured.sessions
    × ((s : Session) × (rest : List Session) × (captured.sessions ≡ s ∷ rest)
        × (s.items ≡ snapshot_rows query none history)
        × (s.watermark ≡ length history))
capture-IsWithin_example =
    capture-IsWithin "s1" "t1" "2026-01-01T01:00:00Z" "2026-01-01T01:30:00Z" "2026-01-01T00:00:00Z"
      query reader "p" none history empty_cursors captured empty-IsWithin snapshot_taken

abbrev all_items : OperationalIncident → Bool
all_items item = true

abbrev small : Page → ℕ
small p = 100

abbrev first_page : Page
first_page = record {
  items = seen "i1" ∷ [];
  partial = false;
  truncated = true;
  cursor = "t1";
  redacted = false;
  next_cursor = some "t2";
}

first_page_served :
    (page all_items small "t2" "t1" "2026-01-01T01:10:00Z" reader "p" captured).1 ≡ ok first_page
unfolding page frame_of find_token find_session check_frame is_owner respond first_part
    advance_token token_at
first_page_served = refl

abbrev then_cursors : Cursors
then_cursors = record captured {
  tokens = record { token = "t2"; session_id = "s1"; position = 1 } ∷ captured.tokens;
}

abbrev second_page : Page
second_page = record {
  items = seen "i2" ∷ [];
  partial = false;
  truncated = false;
  cursor = "t2";
  redacted = false;
  next_cursor = none;
}

first_page_leaves :
    (page all_items small "t2" "t1" "2026-01-01T01:10:00Z" reader "p" captured).0 ≡ then_cursors
unfolding page frame_of find_token find_session check_frame is_owner respond first_part
    advance_token token_at
first_page_leaves = refl

second_page_served :
    (page all_items small "t3" "t2" "2026-01-01T01:20:00Z" reader "p" then_cursors).1
    ≡ ok second_page
unfolding page frame_of find_token find_session check_frame is_owner respond first_part
    advance_token token_at
second_page_served = refl

captured-Reachable : Reachable captured
captured-Reachable = next begun (
    taken "s1" "t1" "2026-01-01T01:00:00Z" "2026-01-01T01:30:00Z" "2026-01-01T00:00:00Z" query
      reader "p" none history tt snapshot_taken)

walked : ReadsOn all_items small reader "p" captured "t1" (seen "i1" ∷ seen "i2" ∷ [])
walked =
    more "t2" "2026-01-01T01:10:00Z" first_page "t2" first_page_served refl (refl, tt)
      (subst (λ (c : Cursors). ReadsOn all_items small reader "p" c "t2" (seen "i2" ∷ []))
        (sym first_page_leaves)
        (last "t3" "2026-01-01T01:20:00Z" second_page second_page_served refl))

ReadsOn-IsWhole_example :
    IsWhole all_items small reader "p" captured "t1" (seen "i1" ∷ seen "i2" ∷ [])
ReadsOn-IsWhole_example =
    ReadsOn-IsWhole all_items small reader "p" captured "t1" (seen "i1" ∷ seen "i2" ∷ [])
      captured-Reachable walked

abbrev begin : Frame
begin = record { session = session; position = 0 }

framed_first : frame_of "t1" captured ≡ some begin
unfolding frame_of find_token find_session
framed_first = refl

checked_first : check_frame "2026-01-01T01:10:00Z" reader "p" (some begin) ≡ ok begin
unfolding check_frame is_owner
checked_first = refl

reading_returns_example :
    ((xs : List OperationalIncident) × ReadsOn all_items small reader "p" captured "t1" xs
      × (xs ≡ select all_items (seen "i1" ∷ seen "i2" ∷ [])))
    ⊎ Halts all_items small "2026-01-01T01:10:00Z" reader "p" captured "t1"
reading_returns_example =
    reading_returns all_items small "2026-01-01T01:10:00Z" reader "p" ("t2" ∷ "t3" ∷ []) "t1"
      captured begin captured-Reachable ((refl, tt), (refl, tt), ((refl, tt), tt, tt)) framed_first
      checked_first (omega arith) (omega arith)
