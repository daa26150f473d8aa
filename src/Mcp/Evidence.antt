-- ===== src/Mcp/Evidence.antt =====
-- `MCPEvidenceIngressMediator` of tools/mcp_evidence_ingress.py, and what it lets through.
use text.Mathlib.Text.{starts_with}
use mathlib.Core.Path.{subst, sym}
use ouf_api_gateway.Base.{
  ℕ, ◌≤◌, ◌≡◌, inl, inr, Bool, true, false, not, ◌||◌, Option, none, some, String, List, [], ◌∷◌,
  Outcome, ok, raised, forbid, require, ◌>>◌, ◌>>=◌, ◌==◌, ◌≠◌, string_eq, nat_eq, ltb, length,
  if◌then◌else◌, all, contains, is_empty, truthy, All, arith, Outcome-cases, Option-cases, eq_iff,
}
use ouf_api_gateway.Base.Text.{sort_by}
use ouf_api_gateway.Base.Dict.{Dict}
use ouf_api_gateway.Mcp.Envelope.{
  Failure, dispatch_error, TrustedIdentity, Bytes, BackendResponse, UpstreamCall, first_header,
}

-- The payload after its schema has accepted it.
pub record EvidencePayload : Type 0 where
  pub backend_owner : Option String
  pub backend_request_id : String
  pub kind : String
  pub terminal_state : String
  pub outcome_code : String
  pub result_ref : Option String
  pub actual_distinct_objects : ℕ
  pub object_hashes : List String

-- `canonical`
pub record CanonicalEvidence : Type 0 where
  pub claimed_owner : String
  pub backend_request_id : String
  pub kind : String
  pub terminal_state : String
  pub outcome_code : String
  pub result_ref : String
  pub actual_distinct_objects : ℕ
  pub object_hashes : List String

-- `OWNER_BY_SERVICE`
unfoldable pub owner_by_service : String → Option String
owner_by_service service =
    if service == "ouf-udp-object-resolution" then some "udp-object-resolution" else none

abbrev pub or_empty : Option String → String
or_empty none = ""
or_empty (some s) = s

abbrev pub is_other_owner : Option String → String → Bool
is_other_owner none owner = false
is_other_owner (some o) owner = o ≠ owner

-- The checks by the kind of the evidence. An object hash that the schema accepts has a version
-- before its first colon; `v1` is the only one that is admitted.
unfoldable pub check_kind : EvidencePayload → Outcome Failure (Unit {0})
check_kind v =
    if v.kind == "OWNER_PROVES_NO_DISPATCH"
    then forbid
        ((v.terminal_state ≠ "FAILED")
          || (v.outcome_code ≠ "DISPATCH_NOT_STARTED")
          || (v.actual_distinct_objects ≠ 0)
          || not (is_empty v.object_hashes)
          || truthy v.result_ref)
        (dispatch_error 400 "INVALID_EVIDENCE"
          "no-dispatch evidence must be canonical zero-cost proof")
    else require (truthy v.result_ref)
        (dispatch_error 400 "INVALID_EVIDENCE" "owner result requires ResultRef")

unfoldable pub is_admitted_hash : String → Bool
is_admitted_hash item = starts_with item "v1:"

unfoldable pub canonical_evidence : String → EvidencePayload → CanonicalEvidence
canonical_evidence owner v = record {
  claimed_owner = owner;
  backend_request_id = v.backend_request_id;
  kind = v.kind;
  terminal_state = v.terminal_state;
  outcome_code = v.outcome_code;
  result_ref = or_empty v.result_ref;
  actual_distinct_objects = v.actual_distinct_objects;
  object_hashes = sort_by (λ h. h) v.object_hashes;
}

abbrev pub trusted_owner : Option String → Outcome Failure String
trusted_owner none = raised (
    dispatch_error 403 "EVIDENCE_ACCESS_DENIED"
      "owner workload is not authorized for evidence ingress")
trusted_owner (some owner) = ok owner

abbrev pub read_payload : Outcome String EvidencePayload → Outcome Failure EvidencePayload
read_payload (raised detail) = raised (dispatch_error 400 "INVALID_EVIDENCE" detail)
read_payload (ok v) = ok v

-- `if response.status not in {200, 201, 409}: raise`
unfoldable pub accept_status : BackendResponse → Outcome Failure BackendResponse
accept_status r = do
  require ((r.status == 200) || (r.status == 201) || (r.status == 409))
      (dispatch_error 503 "EVIDENCE_INBOX_UNAVAILABLE" "MCP Evidence Inbox unavailable")
  ok r

check_kind-zero :
    (v : EvidencePayload)
    → check_kind v ≡ ok tt
    → v.kind ≡ "OWNER_PROVES_NO_DISPATCH"
    → (v.actual_distinct_objects ≡ 0)
      × (is_empty v.object_hashes ≡ true)
      × (truthy v.result_ref ≡ false)
unfolding check_kind
check_kind-zero v h e =
    let k = (eq_iff v.kind "OWNER_PROVES_NO_DISPATCH").1 e in
    (ground arith, ground arith, ground arith)

-- `decode` reads the JSON body and checks it against the schema, `encode` writes the canonical
-- evidence, and `deliver` is the port's `ingest`.
module _ (decode : Bytes → Outcome String EvidencePayload) (encode : CanonicalEvidence → Bytes)
    (deliver : UpstreamCall → Outcome Failure BackendResponse) where
  -- `ingest`, up to the call of the inbox.
  unfoldable pub admit_evidence :
      Bytes → Dict String → TrustedIdentity → Outcome Failure UpstreamCall
  unfolding canonical_evidence check_kind
  admit_evidence raw_body request_headers i = do
    owner ← trusted_owner (owner_by_service i.service_principal_id)
    require (contains i.scopes "mcp.evidence.submit") (
        dispatch_error 403 "EVIDENCE_ACCESS_DENIED"
          "owner workload is not authorized for evidence ingress")
    forbid (ltb 1048576 (length raw_body))
        (dispatch_error 413 "EVIDENCE_TOO_LARGE" "evidence payload exceeds ingress bound")
    v ← read_payload (decode raw_body)
    forbid (is_other_owner v.backend_owner owner) (
        dispatch_error 409 "EVIDENCE_OWNER_MISMATCH"
          "payload owner differs from trusted workload identity")
    check_kind v
    require (all is_admitted_hash v.object_hashes)
        (dispatch_error 400 "UNSUPPORTED_OBJECT_HASH_VERSION" "object hash version is not admitted")
    forbid (first_header "x-correlation-id" request_headers == "")
        (dispatch_error 400 "MISSING_CORRELATION_ID" "correlation id is required")
    ok (record {
      service = "ouf-mcp-server";
      path = "/internal/evidence/v1/owner-results";
      body = encode (canonical_evidence owner v);
      headers =
          ("Content-Type", "application/json")
          ∷ ("Accept", "application/json")
          ∷ ("X-Correlation-ID", first_header "x-correlation-id" request_headers)
          ∷ ("X-OUF-Trusted-Backend-Owner", owner)
          ∷ ("X-OUF-Source-Service", i.service_principal_id)
          ∷ [];
      timeout_seconds = 3;
    })

  abbrev submit : Outcome Failure UpstreamCall → List UpstreamCall × Outcome Failure BackendResponse
  submit (raised f) = ([], raised f)
  submit (ok call) = (call ∷ [], deliver call >>= accept_status)

  -- The calls that the inbox receives, and what `ingest` returns or raises.
  unfoldable pub ingest :
      Bytes → Dict String → TrustedIdentity → List UpstreamCall × Outcome Failure BackendResponse
  unfolding admit_evidence accept_status
  ingest raw_body request_headers i = submit (admit_evidence raw_body request_headers i)

  -- Evidence that may reach the inbox: its owner is the workload's, whatever the payload says.
  pub record IsOwnEvidence (raw_body : Bytes) (i : TrustedIdentity) (call : UpstreamCall)
      : Type 0 where
    pub owner : String
    pub payload : EvidencePayload
    pub derived : owner_by_service i.service_principal_id ≡ some owner
    pub scope : contains i.scopes "mcp.evidence.submit" ≡ true
    pub bounded : length raw_body ≤ 1048576
    pub decoded : decode raw_body ≡ ok payload
    pub asserted : is_other_owner payload.backend_owner owner ≡ false
    pub sent_body : call.body ≡ encode (canonical_evidence owner payload)
    pub zero_cost :
        payload.kind ≡ "OWNER_PROVES_NO_DISPATCH"
        → (payload.actual_distinct_objects ≡ 0)
          × (is_empty payload.object_hashes ≡ true)
          × (truthy payload.result_ref ≡ false)
    pub versions : all is_admitted_hash payload.object_hashes ≡ true

  admit_evidence-IsOwnEvidence :
      (raw : Bytes) (headers : Dict String) (i : TrustedIdentity) (call : UpstreamCall)
      → admit_evidence raw headers i ≡ ok call
      → IsOwnEvidence raw i call
  unfolding admit_evidence
  admit_evidence-IsOwnEvidence raw headers i call h =
      elim (Option-cases (owner_by_service i.service_principal_id)) [
        | inl q ↦ absurd (let h' = rw q at h in ground arith)
        | inr (owner, q) ↦ elim (Outcome-cases (decode raw)) [
          | inr (f, p) ↦ absurd (let h' = rw (q, p) at h in ground arith)
          | inl (v, p) ↦ elim (Outcome-cases (check_kind v)) [
            | inr (f, o) ↦ absurd (let h' = rw (q, p, o) at h in ground arith)
            | inl (u, o) ↦
                let h' = rw (q, p, o) at h in
                record {
                  owner = owner;
                  payload = v;
                  derived = q;
                  scope = ground arith;
                  bounded = ground arith;
                  decoded = p;
                  asserted = ground arith;
                  sent_body = ground arith;
                  zero_cost = λ e. check_kind-zero v o e;
                  versions = ground arith;
                }
          ]
        ]
      ]

  -- Every call that `ingest` makes carries the owner of the authenticated workload: the payload
  -- may only agree with it. The workload has the scope, the body is bounded, evidence that nothing
  -- was dispatched has no objects and no result, and every object hash is of the admitted version.
  pub ingest-IsOwnEvidence :
      (raw : Bytes) (headers : Dict String) (i : TrustedIdentity)
      → All (IsOwnEvidence raw i) (ingest raw headers i).0
  unfolding ingest
  ingest-IsOwnEvidence raw headers i = elim (Outcome-cases (admit_evidence raw headers i)) [
    | inr (f, q) ↦ subst (λ o. All (IsOwnEvidence raw i) (submit o).0) (sym q) tt
    | inl (call, q) ↦
        subst (λ o. All (IsOwnEvidence raw i) (submit o).0) (sym q)
          (admit_evidence-IsOwnEvidence raw headers i call q, tt)
  ]
