-- ===== src/Etcd/Gate.antt =====
-- `PublicationResilienceGate` of tools/etcd_resilience.py.
use ouf_api_gateway.Base.{
  ℕ, Bool, true, false, not, ◌&&◌, Option, some, String, List, [], ◌∷◌, Outcome, ok, raised, forbid,
  require, ◌>>◌, ◌==◌, ◌≠◌, string_eq, option_eq, ltb, leb, if◌then◌else◌, all, any, contains,
  is_empty,
}
use ouf_api_gateway.Base.Text.{sort_by, count_code}

pub data EtcdSafetyError : Type 0 where
  quorum_unavailable storage_slow backpressure_required : EtcdSafetyError
  restore_revision_mismatch restore_partial_or_extra_routes : EtcdSafetyError
  restore_partial_or_extra_upstreams restore_unallowlisted_upstream : EtcdSafetyError
  restore_wildcard_route restore_wildcard_upstream : EtcdSafetyError

pub data GateError : Type 0 where
  empty_upstreams max_pending_not_positive : GateError

pub data Severity : Type 0 where
  warning error critical : Severity

-- What the gate tells the sink, under its one incident key.
pub data IncidentCall : Type 0 where
  open_incident : EtcdSafetyError → Severity → String → IncidentCall
  resolve_incident : String → IncidentCall

pub record EtcdHealth : Type 0 where
  pub quorum : Bool
  pub storage_slow : Bool
  pub pending_proposals : ℕ
  pub leader_changes : ℕ

pub record DesiredState : Type 0 where
  pub revision : String
  pub routes : List String
  pub upstreams : List String

pub record RestoredState : Type 0 where
  pub active_revision : Option String
  pub routes : List String
  pub upstreams : List String

pub record Gate : Type 0 where
  pub allowed_upstreams : List String
  pub max_pending_proposals : ℕ
  pub has_sink : Bool

-- `__init__`
unfoldable pub new_gate : List String → ℕ → Bool → Outcome GateError Gate
new_gate allowed max_pending has_sink = do
  forbid (is_empty allowed) empty_upstreams
  forbid (ltb max_pending 1) max_pending_not_positive
  ok (record {
    allowed_upstreams = allowed;
    max_pending_proposals = max_pending;
    has_sink = has_sink;
  })

unfoldable pub publication_allowed : Gate → EtcdHealth → Bool
publication_allowed g h =
    h.quorum && not h.storage_slow && leb h.pending_proposals g.max_pending_proposals

-- `_incident` and `resolve_incident`, where there is a sink
abbrev pub tell : Gate → IncidentCall → List IncidentCall
tell g call = if g.has_sink then call ∷ [] else []

abbrev pub refuse :
    Gate
    → EtcdSafetyError
    → Severity
    → String
    → List IncidentCall × Outcome EtcdSafetyError (Unit {0})
refuse g e severity impact_summary = (tell g (open_incident e severity impact_summary), raised e)

-- The calls that the sink receives, and whether the publication may go on.
unfoldable pub require_publication_allowed :
    Gate → EtcdHealth → List IncidentCall × Outcome EtcdSafetyError (Unit {0})
require_publication_allowed g h =
    if not h.quorum
    then refuse g quorum_unavailable critical
        "Gateway publication is blocked because the etcd quorum is unavailable."
    else if h.storage_slow
    then refuse g storage_slow error
        "Gateway publication is blocked because etcd storage latency is degraded."
    else if ltb g.max_pending_proposals h.pending_proposals
    then refuse g backpressure_required warning
        "Gateway publication is throttled because etcd pending proposals exceed the governed threshold."
    else (
      tell g (
          resolve_incident
            "Gateway etcd publication safety recovered; quorum, storage and proposal backlog are within governed limits."),
      ok tt,
    )

abbrev pub same_texts : List String → List String → Bool
same_texts [] [] = true
same_texts [] (y ∷ ys) = false
same_texts (x ∷ xs) [] = false
same_texts (x ∷ xs) (y ∷ ys) = (x == y) && same_texts xs ys

abbrev pub sorted : List String → List String
sorted xs = sort_by (λ x. x) xs

-- `"*" in s`
unfoldable pub has_wildcard : String → Bool
has_wildcard s = ltb 0 (count_code b'*' s)

unfoldable pub verify_restore :
    Gate → DesiredState → RestoredState → Outcome EtcdSafetyError (Unit {0})
unfolding has_wildcard
verify_restore g desired restored = do
  forbid (restored.active_revision ≠ some desired.revision) restore_revision_mismatch
  require (same_texts (sorted restored.routes) (sorted desired.routes))
      restore_partial_or_extra_routes
  require (same_texts (sorted restored.upstreams) (sorted desired.upstreams))
      restore_partial_or_extra_upstreams
  require (all (contains g.allowed_upstreams) restored.upstreams) restore_unallowlisted_upstream
  forbid (any has_wildcard restored.routes) restore_wildcard_route
  forbid (any has_wildcard restored.upstreams) restore_wildcard_upstream
  ok tt
