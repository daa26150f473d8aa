-- ===== src/Publication/LastKnownGood.antt =====
-- What `Publisher.publish` of tools/publication.py does to the recorded files and to the active
-- manifest.
use mathlib.Core.Path.{subst}
use mathlib.Core.Option.{some-injective}
use ouf_api_gateway.Base.{
  string_eq, beq_refl, sym, ◌∙◌, ap, ok-injective, Outcome-cases, refl, ◌≠◌, Bool-cases, inr, inl,
  Option-cases, raised, ok, eq_iff, ◌⊎◌, true, arith, some, none, false, ◌≡◌, String, Bool, Outcome,
  Eq,
}
use ouf_api_gateway.ControlPlane.{ControlPlane}
use ouf_api_gateway.Base.Dict.{Dict, lookup, insert, lookup-insert}
use ouf_api_gateway.Publication.Manifest.{
  sink_failed, rolled_back, verified, resolve_incident, hash_collision, immutable_manifest,
  Manifest, active, SinkCall, PublicationError,
}
use ouf_api_gateway.Publication.Store.{
  contains_publication, is_there, Store, record_publication, write_files,
}
use ouf_api_gateway.Publication.Publish.{
  report, is_safe_id, activation_lost, failed_at, compiled_manifest, activated_manifest,
  pre_manifest, applied, or_failed, is_healthy, verify_staged, stage_compiled, roll_back,
  publish_compiled, activate_verified, Rules, World, Request, publish, settle, all_checked,
}

abbrev pub AllChecked : Manifest → Type 0
AllChecked m = (v : Dict Bool) × (m.verification ≡ some v) × (all_checked v ≡ true)

-- From the store `s`, a call that gave `r` and left the store `s'`.
pub record Preserves {Artifact : Type 0} (s : Store Artifact)
    (r : Outcome PublicationError Manifest) (s' : Store Artifact) : Type 0 where
  pub manifests :
      (id : String) (m : Manifest)
      → lookup id s.manifests ≡ some m
      → lookup id s'.manifests ≡ some m
  pub artifacts :
      (h : String) (a : Artifact) → lookup h s.artifacts ≡ some a → lookup h s'.artifacts ≡ some a
  pub returned : (m : Manifest) → r ≡ ok m → lookup m.publication_id s'.manifests ≡ some m
  pub active_moves :
      (s'.active ≡ s.active)
      ⊎ ((m : Manifest) × (s'.active ≡ some m)
          × (lookup m.publication_id s'.manifests ≡ some m)
          × ((r ≡ ok m) ⊎ (r ≡ raised sink_failed))
          × (m.status ≡ active)
          × AllChecked m)

lookup-write_new {ℓ} :
    {V : Type ℓ} (k j : String) (v w : V) (d : Dict V)
    → lookup k d ≡ none
    → lookup j d ≡ some w
    → lookup j (insert k v d) ≡ some w
lookup-write_new k j v w d fresh old = ground (arith, lookup-insert k j v d, eq_iff k j)

written :
    (m : Manifest) (ms : Dict Manifest)
    → lookup m.publication_id (insert m.publication_id m ms) ≡ some m
written m ms =
    ground (arith, lookup-insert m.publication_id m.publication_id m ms, beq_refl m.publication_id)

module _ {Artifact : Type 0} where
  Preserves-refl : (s : Store Artifact) (x : PublicationError) → Preserves s (raised x) s
  Preserves-refl s x = record {
    returned = λ m h. cc;
    manifests = λ id m h. h;
    artifacts = λ k a h. h;
    active_moves = inl refl;
  }

module _ {Artifact : Type 0} ⦃e : Eq Artifact⦄ (m : Manifest) (a : Artifact) (activate : Bool)
    (s : Store Artifact) where
  pub record_publication_cases :
      ((x : PublicationError) × (record_publication m a activate s ≡ (raised x, s)))
      ⊎ ((lookup m.publication_id s.manifests ≡ none)
          × (record_publication m a activate s ≡ (ok tt, write_files m a activate s)))
  unfolding record_publication
  record_publication_cases = elim (Option-cases (lookup m.publication_id s.manifests)) [
    | inr (old, q) ↦ inl (immutable_manifest, ground arith)
    | inl q ↦ elim (Option-cases (lookup m.artifact_set_hash s.artifacts)) [
      | inl p ↦ inr (q, ground arith)
      | inr (b, p) ↦ elim (Bool-cases (b ≠ a)) [
        | inl differ ↦ inl (hash_collision, ground arith)
        | inr same ↦ inr (q, ground arith)
      ]
    ]
  ]

  write_files-Preserves :
      (r : Outcome PublicationError Manifest)
      → (r ≡ ok m) ⊎ (r ≡ raised sink_failed)
      → lookup m.publication_id s.manifests ≡ none
      → (activate ≡ false) ⊎ ((m.status ≡ active) × AllChecked m)
      → Preserves s r (write_files m a activate s)
  unfolding write_files
  write_files-Preserves r ends fresh gates = record {
    returned = λ n h. elim ends [
      | inl q ↦
          subst (λ k. lookup k.publication_id (insert m.publication_id m s.manifests) ≡ some k)
            (ok-injective (sym q ∙ h)) (written m s.manifests)
      | inr q ↦ absurd (ground (arith, q, h))
    ];
    manifests = λ id n h. lookup-write_new m.publication_id id m n s.manifests fresh h;
    artifacts = λ k b h. elim (Option-cases (lookup m.artifact_set_hash s.artifacts)) [
      | inl q ↦ rw (q, is_there) (lookup-write_new m.artifact_set_hash k a b s.artifacts q h)
      | inr (c, q) ↦ rw (q, is_there) h
    ];
    active_moves = elim gates [
      | inl off ↦ inl (ground arith)
      | inr passed ↦ elim (Bool-cases activate) [
        | inl on ↦ inr (m, ground arith, written m s.manifests, ends, passed.0, passed.1)
        | inr off ↦ inl (ground arith)
      ]
    ];
  }

module _ {Artifact : Type 0} ⦃e : Eq Artifact⦄ (P : ControlPlane Artifact)
    (rules : Rules Artifact) where
  abbrev Kept : World P → Outcome PublicationError Manifest × World P → Type 0
  Kept w (r, w') = Preserves w.store r w'.store

  -- The files are written whatever the sink does.
  report-Kept :
      (m : Manifest) (a : Artifact) (activate : Bool) (call : SinkCall) (w : World P)
      → lookup m.publication_id w.store.manifests ≡ none
      → (activate ≡ false) ⊎ ((m.status ≡ active) × AllChecked m)
      → Kept w (report P rules call m (record w { store = write_files m a activate w.store }))
  report-Kept m a activate call w fresh gates = elim (Bool-cases rules.has_sink) [
    | inr off ↦ rw off (write_files-Preserves m a activate w.store _ (inl refl) fresh gates)
    | inl on ↦ elim (Bool-cases (rules.sink_returns w.sink call)) [
      | inl well ↦
          rw (on, well) (write_files-Preserves m a activate w.store _ (inl refl) fresh gates)
      | inr ill ↦ rw (on, ill) (write_files-Preserves m a activate w.store _ (inr refl) fresh gates)
    ]
  ]

  settle-Kept :
      (m : Manifest) (a : Artifact) (activate : Bool) (call : SinkCall) (w : World P)
      → (activate ≡ false) ⊎ ((m.status ≡ active) × AllChecked m)
      → Kept w (settle P rules m a activate call w)
  unfolding settle
  settle-Kept m a activate call w gates = elim (Bool-cases (rules.fits_schema m)) [
    | inr misfit ↦ rw (misfit, settle) (Preserves-refl w.store _)
    | inl fits ↦ elim (record_publication_cases m a activate w.store) [
      | inl (x, q) ↦ rw (fits, ap (λ p. p.0) q, ap (λ p. p.1) q, settle) (Preserves-refl w.store _)
      | inr (fresh, q) ↦
          rw (fits, ap (λ p. p.0) q, ap (λ p. p.1) q, settle)
            (report-Kept m a activate call w fresh gates)
    ]
  ]

  roll_back-Kept :
      (revision : String) (m : Manifest) (a : Artifact) (call : SinkCall) (w : World P)
      → Kept w (roll_back P rules revision m a call w)
  unfolding roll_back
  roll_back-Kept revision m a call w = elim (Outcome-cases (P.rollback revision w.plane).0) [
    | inl (u, q) ↦
        rw (q, roll_back)
          (settle-Kept (record m { status = rolled_back }) a false call _ (inl refl))
    | inr (x, q) ↦ rw (q, roll_back) (Preserves-refl w.store _)
  ]

  activate_verified-Kept :
      (q : Request Artifact) (revision : String) (v : Dict Bool) (m : Manifest) (a : Artifact)
      (w : World P)
      → m.verification ≡ some v
      → all_checked v ≡ true
      → Kept w (activate_verified P rules q revision v m a w)
  unfolding activate_verified
  activate_verified-Kept q revision v m a w is_v checked =
      elim (Outcome-cases (P.activate revision w.plane).0) [
        | inl (u, p) ↦
            rw (p, activate_verified)
              (settle-Kept (activated_manifest P rules q m) a true resolve_incident _
                (inr (refl, (v, is_v, checked))))
        | inr (x, p) ↦
            rw (p, activate_verified) (roll_back-Kept revision (activation_lost P rules v m) a _ _)
      ]

  verify_staged-Kept :
      (q : Request Artifact) (revision : String) (m : Manifest) (a : Artifact) (w : World P)
      → Kept w (verify_staged P rules q revision m a w)
  unfolding verify_staged
  verify_staged-Kept q revision m a w =
      let v : Dict Bool = or_failed P rules (P.verify revision a w.plane).0 in
      elim (Bool-cases (all_checked v)) [
        | inl checked ↦
            rw (checked, verify_staged)
              (activate_verified-Kept q revision v
                (record (applied P rules revision v m) { status = verified }) a _ refl checked)
        | inr short ↦
            rw (short, verify_staged) (roll_back-Kept revision (applied P rules revision v m) a _ _)
      ]

  stage_compiled-Kept :
      (q : Request Artifact) (m : Manifest) (a : Artifact) (w : World P)
      → Kept w (stage_compiled P rules q m a w)
  unfolding stage_compiled
  stage_compiled-Kept q m a w = elim (Outcome-cases (P.stage a w.plane).0) [
    | inl (revision, p) ↦ rw (p, stage_compiled) (verify_staged-Kept q revision m a _)
    | inr (x, p) ↦
        rw (p, stage_compiled) (settle-Kept (failed_at P rules "stage" m) a false _ _ (inl refl))
  ]

  publish_compiled-Kept :
      (q : Request Artifact) (m : Manifest) (a : Artifact) (w : World P)
      → Kept w (publish_compiled P rules q m a w)
  unfolding publish_compiled
  publish_compiled-Kept q m a w = elim (Bool-cases (is_healthy P rules (P.healthy w.plane).0)) [
    | inl well ↦ rw (well, publish_compiled) (stage_compiled-Kept q m a _)
    | inr ill ↦
        rw (ill, publish_compiled)
          (settle-Kept (failed_at P rules "health" m) a false _ _ (inl refl))
  ]

  -- Whatever the plane and the incident sink do and wherever a publication stops, every manifest and
  -- every artifact that was recorded stays as it was; a manifest that is returned is recorded; and
  -- the active manifest either stays, or becomes a recorded manifest whose status is ACTIVE and all
  -- of whose required checks passed, and which is returned unless the sink's call behind its record
  -- raises.
  pub publish-Preserves :
      (q : Request Artifact) (w : World P)
      → let (r, w') = publish P rules q w in Preserves w.store r w'.store
  unfolding publish
  publish-Preserves q w = elim (Bool-cases (is_safe_id q.publication_id)) [
    | inr unsafe ↦ rw (unsafe, publish) (Preserves-refl w.store _)
    | inl safe ↦ elim (Bool-cases (contains_publication q.publication_id w.store)) [
      | inl there ↦ rw (safe, there, publish) (Preserves-refl w.store _)
      | inr fresh ↦ elim (Bool-cases (rules.fits_schema (pre_manifest P rules q w.store.active))) [
        | inr misfit ↦ rw (safe, fresh, misfit, publish) (Preserves-refl w.store _)
        | inl fits ↦ elim (Outcome-cases q.compile) [
          | inr (why, p) ↦ rw (safe, fresh, fits, p, publish) (Preserves-refl w.store _)
          | inl (a, p) ↦
              elim (Bool-cases (rules.fits_schema (compiled_manifest P rules q a w.store.active))) [
                | inr misfit ↦ rw (safe, fresh, fits, p, misfit, publish) (Preserves-refl w.store _)
                | inl fits' ↦
                    rw (safe, fresh, fits, p, fits', publish)
                      (publish_compiled-Kept q (compiled_manifest P rules q a w.store.active) a w)
              ]
        ]
      ]
    ]
  ]

  -- The active manifest is a recorded one.
  pub record ActiveIsRecorded (s : Store Artifact) : Type 0 where
    pub at :
        (m : Manifest)
        → s.active ≡ some m
        → (lookup m.publication_id s.manifests ≡ some m) × (m.status ≡ active) × AllChecked m

  -- If the active manifest is recorded, has the status ACTIVE and passed all required checks, that
  -- is so after every publication.
  pub publish-ActiveIsRecorded :
      (q : Request Artifact) (w : World P)
      → ActiveIsRecorded w.store
      → ActiveIsRecorded (publish P rules q w).1.store
  publish-ActiveIsRecorded q w h =
      let kept = publish-Preserves q w in
      record {
        at = λ m e. elim kept.active_moves [
          | inl same ↦
              let (recorded, is_active, checked) = h.at m (sym same ∙ e) in
              (kept.manifests m.publication_id m recorded, is_active, checked)
          | inr (n, moved, recorded, ends, is_active, checked) ↦
              let n-eq-m : n ≡ m = some-injective n m (sym moved ∙ e) in
              subst
                (λ k.
                  (lookup k.publication_id (publish P rules q w).1.store.manifests ≡ some k)
                  × (k.status ≡ active)
                  × AllChecked k)
                n-eq-m (recorded, is_active, checked)
        ];
      }
