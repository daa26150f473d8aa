-- ===== src/Bookmarks/Tests.antt =====
-- A snapshot of one page, read completely, and its bookmark.
mod Flow
use ouf_api_gateway.Base.{
  ◌≡◌, refl, true, false, none, String, [], ◌∷◌, ok, string_eq, nat_eq, arith,
}
use ouf_api_gateway.Cursor.Snapshot.{Session}
use ouf_api_gateway.Cursor.Pages.{find_session}
use ouf_api_gateway.Bookmarks.Table.{
  Reader, Bookmark, Scoped, issue, mark_page, is_equivalent, earliest, cleanup, oldest_expired,
  has_capacity, new_bookmark,
}
use ouf_api_gateway.Bookmarks.Coverage.{HaveOwnTokens, IsIssued, issue-IsIssued}

abbrev reader : Reader
reader = record { principal = "anna"; tenant = "trieste"; actor = "HUMAN"; identity_digest = "a" }

abbrev session : Session
session = record {
  session_id = "s1";
  principal = "anna";
  tenant = "trieste";
  fingerprint = "f";
  policy_ref = "p";
  page_limit = 50;
  created_at = "2026-01-01T01:00:00Z";
  expires_at = "2026-01-01T01:30:00Z";
  history_gap = false;
  watermark = 3;
  items = [];
}

abbrev scoped : Scoped
scoped = record { session = session; filters = "{}"; parent_token = none; frame_digest = "s1" }

abbrev digest : Session → String
digest s = s.session_id

abbrev bookmark : Bookmark
bookmark = record {
  token = "b1";
  session_id = "s1";
  principal = "anna";
  tenant = "trieste";
  identity_digest = "a";
  policy_ref = "p";
  filters = "{}";
  watermark = 3;
  parent_token = none;
  created_at = "2026-01-01T01:10:00Z";
  expires_at = "2026-04-01T01:10:00Z";
}

bookmark_issued :
    issue digest "b1" "2026-01-01T01:10:00Z" "2026-04-01T01:10:00Z" reader "p" scoped
      (session ∷ [])
      (mark_page "s1" 0 true [])
      []
    ≡ ok (bookmark ∷ [], "b1")
unfolding issue mark_page is_equivalent earliest cleanup oldest_expired has_capacity new_bookmark
    find_session
bookmark_issued = refl

empty-HaveOwnTokens : HaveOwnTokens []
empty-HaveOwnTokens b c m n e = elim m [ ]

issue-IsIssued_example :
    IsIssued "b1" "2026-01-01T01:10:00Z" "2026-04-01T01:10:00Z" reader "p" scoped []
      (bookmark ∷ [])
      "b1"
      (bookmark ∷ [])
issue-IsIssued_example =
    issue-IsIssued digest "b1" "2026-01-01T01:10:00Z" "2026-04-01T01:10:00Z" reader "p" scoped
      (session ∷ []) (mark_page "s1" 0 true []) [] (bookmark ∷ []) "b1" empty-HaveOwnTokens
      (omega arith) bookmark_issued
