-- ===== src/Cursor/Snapshot.antt =====
-- `OwnerIncidentCursor._capture` of tools/operational_cursor.py: a bounded snapshot of the history.
-- A session holds its page items in order of their positions.
use ouf_api_gateway.Base.{
  ℕ, ◌+◌, ◌-◌, ◌*◌, min, Bool, true, false, not, ◌||◌, ◌&&◌, Option, none, some, String, List, [],
  ◌∷◌, map, Outcome, ok, forbid, require, ◌>>◌, ◌>>=◌, ◌==◌, ◌≠◌, string_eq, if◌then◌else◌, text_le,
  select, count, ltb, leb, length,
}
use ouf_api_gateway.Incidents.Store.{Lifecycle, OperationalIncident}
use ouf_api_gateway.Incidents.Listing.{has_state, is_since, prioritized}

pub data CursorRejected : Type 0 where
  session_capacity item_capacity publication_conflict cursor_not_found policy_changed
        cursor_expired :
      CursorRejected
  response_capacity : CursorRejected

-- The identity, with the digest that `digest(identity)` makes of it.
pub record Identity : Type 0 where
  pub principal : String
  pub tenant : String
  pub fingerprint : String

pub record Session : Type 0 where
  pub session_id : String
  pub principal : String
  pub tenant : String
  pub fingerprint : String
  pub policy_ref : String
  pub page_limit : ℕ
  pub created_at : String
  pub expires_at : String
  pub history_gap : Bool
  pub watermark : ℕ
  pub items : List OperationalIncident

-- A row of `gateway_incident_page_cursor`.
pub record Token : Type 0 where
  pub token : String
  pub session_id : String
  pub position : ℕ

pub record Cursors : Type 0 where
  pub sessions : List Session
  pub tokens : List Token

pub record Query : Type 0 where
  pub state : Option Lifecycle
  pub since : Option String
  pub limit : ℕ

abbrev pub has_expired : String → Session → Bool
has_expired now s = text_le s.expires_at now

abbrev pub earlier : Session → Option Session → Option Session
earlier s none = some s
earlier s (some t) = if text_le s.expires_at t.expires_at then some s else some t

-- The expired session that expired first.
unfoldable pub first_expired : String → List Session → Option Session
first_expired now [] = none
first_expired now (s ∷ ss) =
    let rest = first_expired now ss in if has_expired now s then earlier s rest else rest

-- One expired session is deleted, with its items and cursors.
unfoldable pub purge : String → Cursors → Cursors
unfolding first_expired
purge now c = elim (first_expired now c.sessions) [
  | none ↦ c
  | some gone ↦ record {
    sessions = select (λ (s : Session). s.session_id ≠ gone.session_id) c.sessions;
    tokens = select (λ (t : Token). t.session_id ≠ gone.session_id) c.tokens;
  }
]

unfoldable pub used_items : List Session → ℕ
used_items [] = 0
used_items (s ∷ ss) = length s.items + used_items ss

abbrev pub is_tenant : String → Session → Bool
is_tenant tenant s = s.tenant == tenant

abbrev pub is_principal : Identity → Session → Bool
is_principal i s = (s.tenant == i.tenant) && (s.principal == i.principal)

unfoldable pub has_room : Identity → List Session → Bool
has_room i ss =
    ltb (length ss) 4096
    && ltb (count (is_tenant i.tenant) ss) 128
    && ltb (count (is_principal i) ss) 16

-- `available`, where it is not negative
unfoldable pub available_items : ℕ → Identity → List Session → Outcome CursorRejected ℕ
unfolding used_items
available_items limit i ss = do
  forbid (ltb 200000 (used_items ss) || ltb 64000 (used_items (select (is_tenant i.tenant) ss)))
      item_capacity
  ok (
      min (min 20000 (limit * 200))
        (min (200000 - used_items ss) (64000 - used_items (select (is_tenant i.tenant) ss))))

-- The newest transition of each incident, from the newest first, with its revision.
unfoldable pub latest_rows : List OperationalIncident → List (ℕ × OperationalIncident)
latest_rows [] = []
latest_rows (t ∷ ts) =
    (length ts + 1, t)
    ∷ select (λ (r : ℕ × OperationalIncident). r.1.incident_id ≠ t.incident_id) (latest_rows ts)

abbrev pub is_above : Option ℕ → ℕ → Bool
is_above none revision = true
is_above (some lower) revision = ltb lower revision

-- `0 <= lower_revision <= watermark`
abbrev pub is_published : Option ℕ → ℕ → Bool
is_published none watermark = true
is_published (some lower) watermark = leb lower watermark

abbrev pub is_wanted : Query → Option ℕ → ℕ × OperationalIncident → Bool
is_wanted q lower r = has_state q.state r.1 && is_since q.since r.1 && is_above lower r.0

unfoldable pub snapshot_rows :
    Query → Option ℕ → List OperationalIncident → List OperationalIncident
unfolding latest_rows
snapshot_rows q lower ts =
    prioritized
      (map (λ (r : ℕ × OperationalIncident). r.1) (select (is_wanted q lower) (latest_rows ts)))

-- `since` lies before the history's baseline.
abbrev pub is_gap : Option String → String → Bool
is_gap none baseline = false
is_gap (some since) baseline = not (text_le baseline since)

-- `sid` and `token` are the `uuid4()`s of the call, `now` and `expiry` its clock and thirty minutes
-- later, `baseline` the start of the history, and `ts` the history, the newest transition first.
unfoldable pub capture :
    String
    → String
    → String
    → String
    → String
    → Query
    → Identity
    → String
    → Option ℕ
    → List OperationalIncident
    → Cursors
    → Outcome CursorRejected Cursors
unfolding purge has_room available_items snapshot_rows
capture sid token now expiry baseline q i policy_ref lower ts c = do
  require (has_room i (purge now c).sessions) session_capacity
  available ← available_items q.limit i (purge now c).sessions
  require (is_published lower (length ts)) publication_conflict
  forbid (ltb available (length (snapshot_rows q lower ts))) item_capacity
  ok (record {
    sessions =
        record {
          session_id = sid;
          principal = i.principal;
          tenant = i.tenant;
          fingerprint = i.fingerprint;
          policy_ref = policy_ref;
          page_limit = q.limit;
          created_at = now;
          expires_at = expiry;
          history_gap = is_gap q.since baseline;
          watermark = length ts;
          items = snapshot_rows q lower ts;
        }
        ∷ (purge now c).sessions;
    tokens = record { token = token; session_id = sid; position = 0 } ∷ (purge now c).tokens;
  })
