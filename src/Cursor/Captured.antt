-- ===== src/Cursor/Captured.antt =====
-- What a capture of tools/operational_cursor.py adds.
use ouf_api_gateway.Base.{
  ℕ, ◌≡◌, refl, inl, inr, Option, String, List, ◌∷◌, ok, Outcome-cases, arith, length,
}
use ouf_api_gateway.Incidents.Store.{OperationalIncident}
use ouf_api_gateway.Cursor.Snapshot.{
  Identity, Session, Cursors, Query, capture, purge, available_items, snapshot_rows, is_gap,
}

-- What a capture leaves: one session more, and its first token.
abbrev pub Captured : String → String → ℕ → Cursors → Cursors → Type 0
Captured sid token limit c c' =
    (s : Session) × (s.session_id ≡ sid)
    × (s.page_limit ≡ limit)
    × (c' ≡ record {
      sessions = s ∷ c.sessions;
      tokens = record { token = token; session_id = s.session_id; position = 0 } ∷ c.tokens;
    })

pub capture-Captured :
    (sid token now expiry baseline : String) (q : Query) (i : Identity) (policy_ref : String)
    (lower : Option ℕ) (ts : List OperationalIncident) (c c' : Cursors)
    → capture sid token now expiry baseline q i policy_ref lower ts c ≡ ok c'
    → Captured sid token q.limit (purge now c) c'
unfolding capture
capture-Captured sid token now expiry baseline q i policy_ref lower ts c c' h =
    elim (Outcome-cases (available_items q.limit i (purge now c).sessions)) [
      | inr (e, p) ↦ absurd (let h' = rw p at h in ground arith)
      | inl (n, p) ↦
          let h' = rw p at h in
          let made : Session = record {
            session_id = sid;
            principal = i.principal;
            tenant = i.tenant;
            fingerprint = i.fingerprint;
            policy_ref = policy_ref;
            page_limit = q.limit;
            created_at = now;
            expires_at = expiry;
            history_gap = is_gap q.since baseline;
            watermark = length ts;
            items = snapshot_rows q lower ts;
          } in
          (made, refl, refl, ground arith)
    ]
