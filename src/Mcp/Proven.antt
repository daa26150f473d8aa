-- ===== src/Mcp/Proven.antt =====
-- What an owner's evidence has proved when the recovery mediator returns it.
use Prim.Native.String
use mathlib.Core.Path.{subst}
use ouf_api_gateway.Base.{
  ltb, ◌≤◌, ◌≡◌, refl, inl, inr, true, Option, none, some, String, Outcome, ok, arith,
  Outcome-cases, Option-cases, Bool-cases, contains, string_eq, eq_iff, ok-injective,
}
use ouf_api_gateway.Base.Dict.{Dict, lookup}
use ouf_api_gateway.Mcp.Envelope.{Failure, TrustedIdentity, Bytes, BackendResponse, UpstreamCall}
use ouf_api_gateway.Mcp.Recovery.{
  flag, Json, text, nested, integer, null, float, flag, OwnerOutcome, RecoveryRequest, Candidate,
  outcomes, outcome_of, metadata_field, cost_field, owner_outcome, conclude, prepare, recover,
}

-- An outcome that may be passed on: a known one, of bounded metadata, and without a cost where
-- nothing was dispatched or the owner does not know.
pub record IsProven (o : OwnerOutcome) : Type 0 where
  pub known : contains outcomes o.outcome ≡ true
  pub short_code : String.count o.outcome_code ≤ 512
  pub short_ref : String.count o.result_ref ≤ 512
  pub no_dispatch :
      o.outcome ≡ "NOT_DISPATCHED"
      → (o.outcome_code ≡ "OWNER_PROVES_NO_DISPATCH")
        × (o.actual_tool_calls ≡ 0)
        × (o.actual_result_bytes ≡ 0)
  pub unknown : o.outcome ≡ "UNKNOWN" → (o.actual_tool_calls ≡ 0) × (o.actual_result_bytes ≡ 0)

outcome_of-known : (v : Option Json) (t : String) → outcome_of v ≡ ok t → contains outcomes t ≡ true
unfolding outcome_of
outcome_of-known none t h = absurd (ground arith)
outcome_of-known (some (text s)) t h = elim (Bool-cases (contains outcomes s)) [
  | inl in_set ↦
      let h' = rw (in_set, outcome_of) at h in
      subst (λ x. contains outcomes x ≡ true) (ok-injective h') in_set
  | inr out ↦ absurd (let h' = rw (out, outcome_of) at h in ground arith)
]
outcome_of-known (some (integer n)) t h = absurd (ground arith)
outcome_of-known (some (flag b)) t h = absurd (ground arith)
outcome_of-known (some null) t h = absurd (ground arith)
outcome_of-known (some float) t h = absurd (ground arith)
outcome_of-known (some nested) t h = absurd (ground arith)

metadata_field-short :
    (v : Option Json) (t : String) → metadata_field v ≡ ok t → String.count t ≤ 512
unfolding metadata_field
metadata_field-short none t h = subst (λ x. String.count x ≤ 512) (ok-injective h) (omega arith)
metadata_field-short (some (text s)) t h = elim (Bool-cases (ltb 512 (String.count s))) [
  | inr short ↦
      let h' = rw (short, metadata_field) at h in
      subst (λ x. String.count x ≤ 512) (ok-injective h') (ground arith)
  | inl long ↦ absurd (let h' = rw (long, metadata_field) at h in ground arith)
]
metadata_field-short (some (integer n)) t h = absurd (ground arith)
metadata_field-short (some (flag b)) t h = absurd (ground arith)
metadata_field-short (some null) t h = absurd (ground arith)
metadata_field-short (some float) t h = absurd (ground arith)
metadata_field-short (some nested) t h = absurd (ground arith)

owner_outcome-IsProven :
    (id : String) (evidence : Dict Json) (o : OwnerOutcome)
    → owner_outcome id evidence ≡ ok o
    → (o.backend_request_id ≡ id) × IsProven o
unfolding owner_outcome
owner_outcome-IsProven id evidence o h =
    elim (Outcome-cases (outcome_of (lookup "Outcome" evidence))) [
      | inr (f, q) ↦ absurd (let h' = rw q at h in ground arith)
      | inl (outcome, q) ↦ elim (Outcome-cases (metadata_field (lookup "OutcomeCode" evidence))) [
        | inr (f, p) ↦ absurd (let h' = rw (q, p) at h in ground arith)
        | inl (code, p) ↦ elim (Outcome-cases (metadata_field (lookup "ResultRef" evidence))) [
          | inr (f, r) ↦ absurd (let h' = rw (q, p, r) at h in ground arith)
          | inl (reference, r) ↦
              elim (Outcome-cases (cost_field (lookup "ActualToolCalls" evidence))) [
                | inr (f, c) ↦ absurd (let h' = rw (q, p, r, c) at h in ground arith)
                | inl (calls, c) ↦
                    elim (Outcome-cases (cost_field (lookup "ActualResultBytes" evidence))) [
                      | inr (f, b) ↦ absurd (let h' = rw (q, p, r, c, b) at h in ground arith)
                      | inl (bytes, b) ↦
                          let h' = rw (q, p, r, c, b) at h in
                          let made : OwnerOutcome = record {
                            backend_request_id = id;
                            outcome = outcome;
                            outcome_code = code;
                            result_ref = reference;
                            actual_tool_calls = calls;
                            actual_result_bytes = bytes;
                          } in
                          let same : made ≡ o = ground arith in
                          let proven : IsProven made = record {
                            known = outcome_of-known (lookup "Outcome" evidence) outcome q;
                            short_code =
                                metadata_field-short (lookup "OutcomeCode" evidence) code p;
                            short_ref =
                                metadata_field-short (lookup "ResultRef" evidence) reference r;
                            no_dispatch = λ e.
                                let nd = (eq_iff outcome "NOT_DISPATCHED").1 e in
                                (
                                  ground (arith, eq_iff code "OWNER_PROVES_NO_DISPATCH"),
                                  ground arith,
                                  ground arith,
                                );
                            unknown = λ e.
                                let un = (eq_iff outcome "UNKNOWN").1 e in
                                (ground arith, ground arith);
                          } in
                          subst (λ x. (x.backend_request_id ≡ id) × IsProven x) same (refl, proven)
                    ]
              ]
        ]
      ]
    ]

module _ (decode : Bytes → Outcome String RecoveryRequest) (parse : Bytes → Option (Dict Json))
    (encode : OwnerOutcome → Bytes) (execute : UpstreamCall → Outcome Failure BackendResponse) where
  conclude-IsProven :
      (id : String) (response r : BackendResponse)
      → conclude decode parse encode execute id response ≡ ok r
      → (o : OwnerOutcome) × (r.body ≡ encode o)
        × (r.status ≡ 200)
        × (o.backend_request_id ≡ id)
        × IsProven o
  unfolding conclude
  conclude-IsProven id response r h = elim (Option-cases (parse response.body)) [
    | inl q ↦ absurd (let h' = rw q at h in ground arith)
    | inr (evidence, q) ↦ elim (Outcome-cases (owner_outcome id evidence)) [
      | inr (f, p) ↦ absurd (let h' = rw (q, p) at h in ground arith)
      | inl (o, p) ↦
          let h' = rw (q, p) at h in
          let (same, proven) = owner_outcome-IsProven id evidence o p in
          (o, ground arith, ground arith, same, proven)
    ]
  ]

  -- What the mediator knows when it returns: the caller is the recovery workload with its scope,
  -- and the body is a proven outcome of the request that was asked about.
  pub record IsRecovered (s : String) (raw : Bytes) (i : TrustedIdentity) (r : BackendResponse)
      : Type 0 where
    pub request : RecoveryRequest
    pub outcome : OwnerOutcome
    pub decoded : decode raw ≡ ok request
    pub workload : i.service_principal_id ≡ s
    pub scope : contains i.scopes "mcp.attempt.recover" ≡ true
    pub body : r.body ≡ encode outcome
    pub status : r.status ≡ 200
    pub own : outcome.backend_request_id ≡ request.backend_request_id
    pub proven : IsProven outcome

  prepare-request :
      (s : String) (t : Dict Candidate) (raw : Bytes) (headers : Dict String) (i : TrustedIdentity)
      (q : RecoveryRequest) (call : UpstreamCall)
      → prepare decode parse encode execute s t raw headers i ≡ ok (q, call)
      → (decode raw ≡ ok q)
        × (i.service_principal_id ≡ s)
        × (contains i.scopes "mcp.attempt.recover" ≡ true)
  unfolding prepare
  prepare-request s t raw headers i q call h = elim (Outcome-cases (decode raw)) [
    | inr (f, p) ↦ absurd (let h' = rw p at h in ground arith)
    | inl (r, p) ↦ elim (Option-cases (lookup r.capability_id t)) [
      | inl o ↦ absurd (let h' = rw (p, o) at h in ground arith)
      | inr (c, o) ↦
          let h' = rw (p, o) at h in
          (rw p (ground arith), ground (arith, eq_iff i.service_principal_id s), ground arith)
    ]
  ]

  -- A response that `recover` returns has status 200 and carries a proven outcome: one of the four
  -- outcomes for the backend request of the body, of bounded metadata; a claim that nothing was
  -- dispatched has the owner's proof and no cost, an unknown outcome has no cost; and the caller
  -- was the recovery workload with its scope.
  pub recover-IsRecovered :
      (s : String) (t : Dict Candidate) (raw : Bytes) (headers : Dict String) (i : TrustedIdentity)
      (r : BackendResponse)
      → (recover decode parse encode execute s t raw headers i).1 ≡ ok r
      → IsRecovered s raw i r
  unfolding recover
  recover-IsRecovered s t raw headers i r h =
      elim (Outcome-cases (prepare decode parse encode execute s t raw headers i)) [
        | inr (f, p) ↦ absurd (let h' = rw p at h in ground arith)
        | inl ((q, call), p) ↦
            let h1 = rw p at h in
            elim (Outcome-cases (execute call)) [
              | inr (f, o) ↦ absurd (let h2 = rw o at h1 in ground arith)
              | inl (response, o) ↦
                  let h2 = rw o at h1 in
                  let (outcome, b, st, same, proven) =
                    conclude-IsProven q.backend_request_id response r h2 in
                  let (d, w, sc) = prepare-request s t raw headers i q call p in
                  record {
                    request = q;
                    outcome = outcome;
                    decoded = d;
                    workload = w;
                    scope = sc;
                    body = b;
                    status = st;
                    own = same;
                    proven = proven;
                  }
            ]
      ]
