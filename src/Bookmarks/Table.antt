-- ===== src/Bookmarks/Table.antt =====
-- `PublicationBookmarks` of tools/operational_bookmarks.py: the authorization, the checks of a
-- resumed bookmark, and the issue of a new one.
use Prim.Native.String
use ouf_api_gateway.Base.{
  ℕ, ◌+◌, ◌*◌, Bool, false, not, ◌||◌, ◌&&◌, Option, none, some, String, List, [], ◌∷◌, Outcome, ok,
  raised, forbid, require, ◌>>◌, ◌>>=◌, ◌==◌, ◌≠◌, string_eq, nat_eq, option_eq, if◌then◌else◌,
  text_le, select, count, ltb, leb, length, contains,
}
use ouf_api_gateway.Cursor.Snapshot.{Session}
use ouf_api_gateway.Cursor.Pages.{find_session}

pub data BookmarkRejected : Type 0 where
  identity_unproven authorization_unavailable authorization_denied : BookmarkRejected
  bookmark_not_found bookmark_policy_changed history_gap : BookmarkRejected
  scope_not_found capture_changed coverage_incomplete snapshot_expired capacity_unavailable :
      BookmarkRejected

-- The identity of a reader, with the digest that `_identity` makes of it.
pub record Reader : Type 0 where
  pub principal : String
  pub tenant : String
  pub actor : String
  pub identity_digest : String

-- A row of `gateway_bookmark_page`.
pub record PageMark : Type 0 where
  pub session_id : String
  pub position : ℕ
  pub complete : Bool

-- A row of `gateway_publication_bookmark`.
pub record Bookmark : Type 0 where
  pub token : String
  pub session_id : String
  pub principal : String
  pub tenant : String
  pub identity_digest : String
  pub policy_ref : String
  pub filters : String
  pub watermark : ℕ
  pub parent_token : Option String
  pub created_at : String
  pub expires_at : String

-- The joined row that `page` reads: the session, and its row of `gateway_bookmark_scope`.
pub record Scoped : Type 0 where
  pub session : Session
  pub filters : String
  pub parent_token : Option String
  pub frame_digest : String

abbrev pub is_short : ℕ → String → Bool
is_short most s = leb 1 (String.count s) && leb (String.count s) most

-- `_authorize`; `authorize_collection` is the host's, where there is one.
unfoldable pub authorize_reader :
    Option (Reader → String → Bool) → Reader → String → Outcome BookmarkRejected (Unit {0})
authorize_reader authorize_collection r policy = do
  require
      (is_short 200 r.principal
        && is_short 200 r.tenant
        && contains ("HUMAN" ∷ "SERVICE" ∷ "AI_AGENT" ∷ []) r.actor
        && is_short 1024 policy)
      identity_unproven
  elim authorize_collection [
    | none ↦ raised authorization_unavailable
    | some allows ↦ require (allows r policy) authorization_denied
  ]

unfoldable pub find_bookmark : String → List Bookmark → Option Bookmark
find_bookmark token [] = none
find_bookmark token (b ∷ bs) = if b.token == token then some b else find_bookmark token bs

abbrev pub own_bookmark : Option Bookmark → Outcome BookmarkRejected Bookmark
own_bookmark none = raised bookmark_not_found
own_bookmark (some b) = ok b

-- `resume`, up to the capture: the bookmark that is resumed from, whose watermark is the capture's
-- lower revision.
unfoldable pub resume :
    String → ℕ → Reader → String → String → List Bookmark → Outcome BookmarkRejected Bookmark
unfolding find_bookmark
resume now floor r policy bookmark bs = do
  b ← own_bookmark (find_bookmark bookmark bs)
  require (b.identity_digest == r.identity_digest) bookmark_not_found
  forbid (b.policy_ref ≠ policy) bookmark_policy_changed
  forbid (text_le b.expires_at now || ltb b.watermark floor) history_gap
  ok b

-- `insert into gateway_bookmark_page ... on conflict(session_id,position) do update`
unfoldable pub mark_page : String → ℕ → Bool → List PageMark → List PageMark
mark_page session_id position complete [] =
    record { session_id = session_id; position = position; complete = complete } ∷ []
mark_page session_id position complete (m ∷ ms) =
    if (m.session_id == session_id) && (m.position == position)
    then record m { complete = complete } ∷ ms
    else m ∷ mark_page session_id position complete ms

abbrev pub is_complete_of : String → PageMark → Bool
is_complete_of session_id m = (m.session_id == session_id) && m.complete

-- `complete == max(1, ceil(item_count / page_limit))`, where a page holds at least one item.
abbrev pub is_ceiling : ℕ → ℕ → ℕ → Bool
is_ceiling pages items limit =
    if items == 0
    then pages == 1
    else leb items (pages * limit) && ltb (pages * limit) (items + limit)

abbrev pub is_covered : Session → List PageMark → Bool
is_covered s ms = is_ceiling (count (is_complete_of s.session_id) ms) (length s.items) s.page_limit

abbrev pub of_session : String → Bookmark → Bool
of_session session_id b = b.session_id == session_id

-- `(? is null and parent_token is null) or token=?`
abbrev pub parent_matches : Option String → Bookmark → Bool
parent_matches none b = b.parent_token == none
parent_matches (some p) b = b.token == p

unfoldable pub is_equivalent : String → Reader → String → Scoped → Bookmark → Bool
is_equivalent now r policy f b =
    (b.principal == r.principal)
    && (b.tenant == r.tenant)
    && (b.identity_digest == r.identity_digest)
    && (b.policy_ref == policy)
    && (b.filters == f.filters)
    && (b.watermark == f.session.watermark)
    && not (text_le b.expires_at now)
    && parent_matches f.parent_token b

abbrev pub first_created : Bookmark → Option Bookmark → Option Bookmark
first_created b none = some b
first_created b (some c) =
    if (b.created_at == c.created_at)
    then (if text_le b.token c.token then some b else some c)
    else if text_le b.created_at c.created_at
    then some b
    else some c

-- `order by created_at,token limit 1` of the bookmarks that pass a test
unfoldable pub earliest : (Bookmark → Bool) → List Bookmark → Option Bookmark
earliest p [] = none
earliest p (b ∷ bs) = let rest = earliest p bs in if p b then first_created b rest else rest

abbrev pub first_to_expire : Bookmark → Option Bookmark → Option Bookmark
first_to_expire b none = some b
first_to_expire b (some c) = if text_le b.expires_at c.expires_at then some b else some c

unfoldable pub oldest_expired : String → List Bookmark → Option Bookmark
oldest_expired now [] = none
oldest_expired now (b ∷ bs) =
    let rest = oldest_expired now bs in
    if text_le b.expires_at now then first_to_expire b rest else rest

abbrev pub without : Option Bookmark → List Bookmark → List Bookmark
without none bs = bs
without (some gone) bs = select (λ (b : Bookmark). b.token ≠ gone.token) bs

-- One bounded cleanup.
unfoldable pub cleanup : String → List Bookmark → List Bookmark
unfolding oldest_expired
cleanup now bs = without (oldest_expired now bs) bs

abbrev pub is_of_tenant : Reader → Bookmark → Bool
is_of_tenant r b = b.tenant == r.tenant

abbrev pub is_of_reader : Reader → Bookmark → Bool
is_of_reader r b = (b.tenant == r.tenant) && (b.principal == r.principal)

unfoldable pub has_capacity : Reader → List Bookmark → Bool
has_capacity r bs =
    ltb (length bs) 32768
    && ltb (count (is_of_tenant r) bs) 4096
    && ltb (count (is_of_reader r) bs) 512

unfoldable pub new_bookmark : String → String → String → Reader → String → Scoped → Bookmark
new_bookmark token now expiry r policy f = record {
  token = token;
  session_id = f.session.session_id;
  principal = r.principal;
  tenant = r.tenant;
  identity_digest = r.identity_digest;
  policy_ref = policy;
  filters = f.filters;
  watermark = f.session.watermark;
  parent_token = f.parent_token;
  created_at = now;
  expires_at = expiry;
}

abbrev pub added :
    Reader → Bookmark → List Bookmark → Outcome BookmarkRejected (List Bookmark × String)
added r b bs = if has_capacity r bs then ok (b ∷ bs, b.token) else raised capacity_unavailable

abbrev pub reused :
    Option Bookmark
    → List Bookmark
    → Outcome BookmarkRejected (List Bookmark × String)
    → Outcome BookmarkRejected (List Bookmark × String)
reused (some old) bs new = ok (bs, old.token)
reused none bs new = new

abbrev pub is_unchanged : (Session → String) → Scoped → Option Session → Bool
is_unchanged digest f none = false
is_unchanged digest f (some current) = digest current == f.frame_digest

-- `_issue`; `token` is the `uuid4()` of the call, `expiry` ninety days after `now`, and `digest`
-- the digest of a session's fields.
unfoldable pub issue :
    (Session → String)
    → String
    → String
    → String
    → Reader
    → String
    → Scoped
    → List Session
    → List PageMark
    → List Bookmark
    → Outcome BookmarkRejected (List Bookmark × String)
unfolding is_equivalent earliest cleanup has_capacity new_bookmark
issue digest token now expiry r policy f sessions ms bs = do
  require (is_unchanged digest f (find_session f.session.session_id sessions)) capture_changed
  require (is_covered f.session ms) coverage_incomplete
  forbid (text_le f.session.expires_at now) snapshot_expired
  reused (earliest (of_session f.session.session_id) bs) bs (
      reused (earliest (is_equivalent now r policy f) bs) bs
        (added r (new_bookmark token now expiry r policy f) (cleanup now bs)))
