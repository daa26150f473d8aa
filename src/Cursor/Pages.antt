-- ===== src/Cursor/Pages.antt =====
-- `OwnerIncidentCursor.page` of tools/operational_cursor.py, for a cursor.
use ouf_api_gateway.Base.{
  ℕ, ◌+◌, zero, suc, Bool, ◌||◌, ◌&&◌, Option, none, some, String, List, [], ◌∷◌, Outcome, ok,
  raised, forbid, require, ◌>>◌, ◌>>=◌, ◌==◌, ◌≠◌, string_eq, nat_eq, if◌then◌else◌, text_le,
  select, take, ltb, length,
}
use ouf_api_gateway.Incidents.Store.{OperationalIncident}
use ouf_api_gateway.Cursor.Snapshot.{
  CursorRejected, cursor_not_found, policy_changed, cursor_expired, response_capacity, Identity,
  Session, Token, Cursors,
}

pub record Frame : Type 0 where
  pub session : Session
  pub position : ℕ

pub record Page : Type 0 where
  pub items : List OperationalIncident
  pub partial : Bool
  pub truncated : Bool
  pub cursor : String
  pub redacted : Bool
  pub next_cursor : Option String

unfoldable pub find_token : String → List Token → Option Token
find_token token [] = none
find_token token (t ∷ ts) = if t.token == token then some t else find_token token ts

unfoldable pub find_session : String → List Session → Option Session
find_session id [] = none
find_session id (s ∷ ss) = if s.session_id == id then some s else find_session id ss

abbrev pub framed : ℕ → Option Session → Option Frame
framed position none = none
framed position (some s) = some (record { session = s; position = position })

abbrev pub joined : List Session → Option Token → Option Frame
joined ss none = none
joined ss (some t) = framed t.position (find_session t.session_id ss)

-- The cursor joined with its session.
unfoldable pub frame_of : String → Cursors → Option Frame
unfolding find_token find_session
frame_of token c = joined c.sessions (find_token token c.tokens)

abbrev pub drop {ℓ} : {A : Type ℓ} → ℕ → List A → List A
drop zero xs = xs
drop (suc n) [] = []
drop (suc n) (x ∷ xs) = drop n xs

-- The items at `position` and after, up to the limit of a page.
abbrev pub page_rows : Frame → List OperationalIncident
page_rows f = take f.session.page_limit (drop f.position f.session.items)

abbrev pub next_position : Frame → ℕ
next_position f = f.position + length (page_rows f)

abbrev pub has_more : Frame → Bool
has_more f = ltb (next_position f) (length f.session.items)

abbrev pub own_frame : Option Frame → Outcome CursorRejected Frame
own_frame none = raised cursor_not_found
own_frame (some f) = ok f

unfoldable pub is_owner : Identity → Session → Bool
is_owner i s =
    (s.principal == i.principal) && (s.tenant == i.tenant) && (s.fingerprint == i.fingerprint)

-- `select token ... where session_id=? and position=?`
unfoldable pub token_at : String → ℕ → List Token → Option String
token_at session_id position [] = none
token_at session_id position (t ∷ ts) =
    if (t.session_id == session_id) && (t.position == position)
    then some t.token
    else token_at session_id position ts

abbrev pub kept_or_new : String → String → ℕ → Cursors → Option String → Cursors × String
kept_or_new new session_id position c (some old) = (c, old)
kept_or_new new session_id position c none = (
  record c {
    tokens = record { token = new; session_id = session_id; position = position } ∷ c.tokens;
  },
  new,
)

-- `insert ... on conflict(session_id,position) do nothing`, and the token that is there then.
unfoldable pub advance_token : String → String → ℕ → Cursors → Cursors × String
unfolding token_at
advance_token new session_id position c =
    kept_or_new new session_id position c (token_at session_id position c.tokens)

unfoldable pub first_part : (OperationalIncident → Bool) → String → Frame → Page
first_part authorize_item token f = record {
  items = select authorize_item (page_rows f);
  partial =
      (length (select authorize_item (page_rows f)) ≠ length (page_rows f))
      || f.session.history_gap;
  truncated = has_more f;
  cursor = token;
  redacted = length (select authorize_item (page_rows f)) ≠ length (page_rows f);
  next_cursor = none;
}

abbrev pub fits : (Page → ℕ) → Page → Outcome CursorRejected Page
fits size p = if ltb 524288 (size p) then raised response_capacity else ok p

abbrev pub with_next : Page → Cursors × String → Cursors × Page
with_next p (c, token) = (c, record p { next_cursor = some token })

-- The page of a frame, and the cursor of the next one.
unfoldable pub respond :
    (OperationalIncident → Bool) → String → String → Frame → Cursors → Cursors × Page
unfolding advance_token first_part
respond authorize_item new token f c =
    if has_more f
    then with_next (first_part authorize_item token f)
        (advance_token new f.session.session_id (next_position f) c)
    else (c, first_part authorize_item token f)

-- The checks of the frame before anything is read.
unfoldable pub check_frame :
    String → Identity → String → Option Frame → Outcome CursorRejected Frame
unfolding is_owner
check_frame now i policy_ref found = do
  f ← own_frame found
  require (is_owner i f.session) cursor_not_found
  forbid (f.session.policy_ref ≠ policy_ref) policy_changed
  forbid (text_le f.session.expires_at now) cursor_expired
  ok f

-- The size is checked last: the next cursor stays, whatever the answer.
abbrev pub answered : (Page → ℕ) → Cursors × Page → Cursors × Outcome CursorRejected Page
answered size (c, p) = (c, fits size p)

abbrev pub served :
    (OperationalIncident → Bool)
    → (Page → ℕ)
    → String
    → String
    → Cursors
    → Outcome CursorRejected Frame
    → Cursors × Outcome CursorRejected Page
served authorize_item size new token c (raised e) = (c, raised e)
served authorize_item size new token c (ok f) = answered size (respond authorize_item new token f c)

-- `size` is the size of the encoded result, and `new` the `uuid4()` of the call.
unfoldable pub page :
    (OperationalIncident → Bool)
    → (Page → ℕ)
    → String
    → String
    → String
    → Identity
    → String
    → Cursors
    → Cursors × Outcome CursorRejected Page
unfolding check_frame respond
page authorize_item size new token now i policy_ref c =
    served authorize_item size new token c (check_frame now i policy_ref (frame_of token c))
