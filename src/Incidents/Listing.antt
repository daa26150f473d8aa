-- ===== src/Incidents/Listing.antt =====
-- `list_incidents` and `summary` of tools/operational_incidents.py.
use ouf_api_gateway.Base.{
  ◌≠◌, ℕ, Bool, true, false, ◌||◌, ◌&&◌, Option, none, some, String, List, [], ◌∷◌, Outcome, ok,
  forbid, ◌>>◌, ◌>>=◌, ◌==◌, string_eq, nat_eq, if◌then◌else◌, text_le, take, select, count, ltb,
  length,
}
use ouf_api_gateway.Base.Dict.{Dict}
use ouf_api_gateway.Incidents.Store.{
  Lifecycle, opened, recovering, resolved, OperationalIncident, ValueError, invalid_limit, Store,
}

unfoldable pub is_in : Lifecycle → Lifecycle → Bool
is_in opened opened = true
is_in recovering recovering = true
is_in resolved resolved = true
is_in _ _ = false

abbrev pub rank : String → ℕ
rank severity =
    if severity == "CRITICAL"
    then 4
    else if severity == "ERROR"
    then 3
    else if severity == "WARNING"
    then 2
    else if severity == "INFO"
    then 1
    else 0

abbrev pub flag : Bool → ℕ
flag true = 1
flag false = 0

-- `order by`: the incidents that are not resolved first, then the more severe, then those that
-- want an action, then the later seen, then by id.
unfoldable pub is_before : OperationalIncident → OperationalIncident → Bool
unfolding is_in
is_before a b =
    if flag (is_in resolved a.lifecycle_state) ≠ flag (is_in resolved b.lifecycle_state)
    then ltb (flag (is_in resolved a.lifecycle_state)) (flag (is_in resolved b.lifecycle_state))
    else if rank a.severity ≠ rank b.severity
    then ltb (rank b.severity) (rank a.severity)
    else if flag a.action_required ≠ flag b.action_required
    then ltb (flag b.action_required) (flag a.action_required)
    else if a.last_seen_at ≠ b.last_seen_at
    then text_le b.last_seen_at a.last_seen_at
    else text_le a.incident_id b.incident_id

abbrev pub rows : Dict OperationalIncident → List OperationalIncident
rows [] = []
rows ((_, row) ∷ d) = row ∷ rows d

unfoldable pub insert_before :
    OperationalIncident → List OperationalIncident → List OperationalIncident
unfolding is_before
insert_before a [] = a ∷ []
insert_before a (x ∷ xs) =
    let rest = insert_before a xs in if is_before a x then a ∷ x ∷ xs else x ∷ rest

unfoldable pub prioritized : List OperationalIncident → List OperationalIncident
unfolding insert_before
prioritized [] = []
prioritized (x ∷ xs) = insert_before x (prioritized xs)

abbrev pub has_state : Option Lifecycle → OperationalIncident → Bool
has_state none r = true
has_state (some s) r = is_in s r.lifecycle_state

-- `last_seen_at >= since`, with the text that `_since` makes of its argument
abbrev pub is_since : Option String → OperationalIncident → Bool
is_since none r = true
is_since (some t) r = text_le t r.last_seen_at

unfoldable pub list_incidents :
    Option Lifecycle → ℕ → Option String → Store → Outcome ValueError (List OperationalIncident)
unfolding prioritized
list_incidents state limit since st = do
  forbid ((ltb limit 1) || (ltb 200 limit)) invalid_limit
  ok (
      take limit
        (prioritized (select (λ r. has_state state r && is_since since r) (rows st.incidents))))

pub data Status : Type 0 where
  degraded recovering_status healthy : Status

pub record Summary : Type 0 where
  pub status : Status
  pub open_incidents : ℕ
  pub recovering_incidents : ℕ
  pub items : List OperationalIncident
  pub truncated : Bool

abbrev pub status_of : ℕ → ℕ → Status
status_of open_count recovering_count =
    if ltb 0 open_count
    then degraded
    else if ltb 0 recovering_count
    then recovering_status
    else healthy

unfoldable pub summary : ℕ → Option String → Store → Outcome ValueError Summary
unfolding list_incidents is_in
summary limit since st = do
  items ← list_incidents none limit since st
  ok (record {
    status =
        status_of
          (count (λ r. is_since since r && is_in opened r.lifecycle_state) (rows st.incidents))
          (count (λ r. is_since since r && is_in recovering r.lifecycle_state) (rows st.incidents));
    open_incidents =
        count (λ r. is_since since r && is_in opened r.lifecycle_state) (rows st.incidents);
    recovering_incidents =
        count (λ r. is_since since r && is_in recovering r.lifecycle_state) (rows st.incidents);
    items = items;
    truncated = ltb (length items) (count (is_since since) (rows st.incidents));
  })
