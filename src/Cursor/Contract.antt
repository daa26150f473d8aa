-- ===== src/Cursor/Contract.antt =====
-- What a page holds, and where its next cursor leads.
use ouf_api_gateway.Base.{
  ℕ, ◌+◌, ◌≤◌, ◌≡◌, ◌↔◌, refl, sym, inl, inr, Bool, true, false, none, some, String, List, [], ◌∷◌,
  ok, arith, Outcome-cases, ok-injective, Option-cases, Bool-cases, length, select, take, ltb, ◌==◌,
  string_eq, nat_eq, eq_iff, eq_refl,
}
use mathlib.Core.Path.{subst}
use ouf_api_gateway.Incidents.Store.{OperationalIncident}
use ouf_api_gateway.Cursor.Snapshot.{Identity, Session, Token, Cursors}
use ouf_api_gateway.Cursor.Pages.{
  Frame, Page, frame_of, find_token, find_session, page_rows, next_position, has_more, drop,
  check_frame, is_owner, token_at, advance_token, first_part, respond, served, answered, page,
}

-- The tokens are keys: the token that stands at a position of a session leads there.
abbrev pub IsKeyed : List Token → Type 0
IsKeyed ts =
    (session_id : String) (position : ℕ) (t : String)
    → token_at session_id position ts ≡ some t
    → find_token t ts ≡ some (record { token = t; session_id = session_id; position = position })

-- A page of a frame: the allowed items from its position on, up to the limit, and a next cursor
-- exactly where more items follow, which leads to the position after the page's rows.
pub record IsPageOf (authorize_item : OperationalIncident → Bool) (f : Frame) (c' : Cursors)
    (p : Page) : Type 0 where
  pub items :
      p.items ≡ select authorize_item (take f.session.page_limit (drop f.position f.session.items))
  pub more : (p.truncated ≡ true) ↔ (f.position + length (page_rows f) + 1 ≤ length f.session.items)
  pub next_frame :
      p.truncated ≡ true
      → (t : String) × (p.next_cursor ≡ some t)
        × (frame_of t c' ≡ some (record { session = f.session; position = next_position f }))
  pub last : p.truncated ≡ false → p.next_cursor ≡ none

find_session-id :
    (id : String) (ss : List Session) (s : Session)
    → find_session id ss ≡ some s
    → s.session_id ≡ id
unfolding find_session
find_session-id id [] s q = absurd (ground arith)
find_session-id id (x ∷ ss) s q = elim (Bool-cases (x.session_id == id)) [
  | inl on ↦ ground (arith, eq_iff x.session_id id, (let q' = rw (on, find_session) at q in q'))
  | inr off ↦ find_session-id id ss s (let q' = rw (off, find_session) at q in q')
]

pub frame_of-session :
    (t : String) (c : Cursors) (f : Frame)
    → frame_of t c ≡ some f
    → find_session f.session.session_id c.sessions ≡ some f.session
unfolding frame_of
frame_of-session t c f h = elim (Option-cases (find_token t c.tokens)) [
  | inl q ↦ absurd (let h' = rw (q, frame_of) at h in ground arith)
  | inr (k, q) ↦ elim (Option-cases (find_session k.session_id c.sessions)) [
    | inl p ↦ absurd (let h' = rw (q, p, frame_of) at h in ground arith)
    | inr (s, p) ↦
        let h' = rw (q, p, frame_of) at h in
        let same : s ≡ f.session = ground arith in
        let own = find_session-id k.session_id c.sessions s p in
        subst (λ (x : Session). find_session x.session_id c.sessions ≡ some x) same
          (subst (λ y. find_session y c.sessions ≡ some s) (sym own) p)
  ]
]

-- The token that `advance_token` answers leads to the position.
advance_token-frame :
    (new : String) (s : Session) (position : ℕ) (c : Cursors)
    → IsKeyed c.tokens
    → find_session s.session_id c.sessions ≡ some s
    → frame_of
        (advance_token new s.session_id position c).1
        (advance_token new s.session_id position c).0
      ≡ some (record { session = s; position = position })
unfolding advance_token frame_of find_token
advance_token-frame new s position c keyed there =
    elim (Option-cases (token_at s.session_id position c.tokens)) [
      | inl q ↦ rw (q, advance_token, eq_refl new, there) refl
      | inr (old, q) ↦
          let k = keyed s.session_id position old q in rw (q, advance_token, k, there) refl
    ]

pub check_frame-frame :
    (now : String) (i : Identity) (policy_ref : String) (f g : Frame)
    → check_frame now i policy_ref (some f) ≡ ok g
    → (f ≡ g) × (is_owner i f.session ≡ true)
unfolding check_frame
check_frame-frame now i policy_ref f g h = (ground arith, ground arith)

module _ (authorize_item : OperationalIncident → Bool) (size : Page → ℕ) (new token : String)
    (c : Cursors) where
  respond-IsPageOf :
      (f : Frame)
      → IsKeyed c.tokens
      → find_session f.session.session_id c.sessions ≡ some f.session
      → IsPageOf authorize_item f
          (respond authorize_item new token f c).0
          (respond authorize_item new token f c).1
  unfolding respond first_part
  respond-IsPageOf f keyed there = elim (Bool-cases (has_more f)) [
    | inr off ↦
        rw (off, respond)
          (record {
            items = refl;
            more = (λ e. ground arith, λ e. ground arith);
            next_frame = λ e. absurd (ground arith);
            last = λ e. refl;
          })
    | inl on ↦
        rw (on, respond)
          (record {
            items = refl;
            more = (λ e. ground arith, λ e. refl);
            next_frame = λ e. (
              (advance_token new f.session.session_id (next_position f) c).1,
              refl,
              advance_token-frame new f.session (next_position f) c keyed there,
            );
            last = λ e. absurd (ground arith);
          })
  ]

  answered-IsPageOf :
      (f : Frame) (p : Page) (r : Cursors × Page)
      → IsPageOf authorize_item f r.0 r.1
      → (answered size r).1 ≡ ok p
      → IsPageOf authorize_item f (answered size r).0 p
  answered-IsPageOf f p (c', r) w h = elim (Bool-cases (ltb 524288 (size r))) [
    | inl big ↦ absurd (let h' = rw big at h in ground arith)
    | inr fine ↦ subst (IsPageOf authorize_item f c') (ok-injective (let h' = rw fine at h in h')) w
  ]

  -- Where the tokens are keys, a page that `page` returns is the page of the frame that its cursor
  -- names: the caller owns the frame, its items are those that the policy allows among the rows
  -- from its position on, and it is truncated exactly where more rows follow; then its next cursor
  -- leads to the position after its rows, so that the pages leave out and repeat nothing.
  pub page-IsPageOf :
      (now : String) (i : Identity) (policy_ref : String) (p : Page)
      → IsKeyed c.tokens
      → (page authorize_item size new token now i policy_ref c).1 ≡ ok p
      → (f : Frame) × (frame_of token c ≡ some f)
        × (is_owner i f.session ≡ true)
        × IsPageOf authorize_item f (page authorize_item size new token now i policy_ref c).0 p
  unfolding page
  page-IsPageOf now i policy_ref p keyed h = elim (Option-cases (frame_of token c)) [
    | inl q ↦ absurd (let h' = rw (q, check_frame) at h in ground arith)
    | inr (f, q) ↦ elim (Outcome-cases (check_frame now i policy_ref (some f))) [
      | inr (e, r) ↦ absurd (let h' = rw (q, r) at h in ground arith)
      | inl (g, r) ↦
          let (same, own) = check_frame-frame now i policy_ref f g r in
          let there = frame_of-session token c f q in
          let checked : check_frame now i policy_ref (frame_of token c) ≡ ok f =
            subst (λ x. check_frame now i policy_ref x ≡ ok f) (sym q)
              (subst (λ x. check_frame now i policy_ref (some f) ≡ ok x) (sym same) r) in
          let h2 = subst (λ o. (served authorize_item size new token c o).1 ≡ ok p) checked h in
          let w =
            answered-IsPageOf f p (respond authorize_item new token f c)
              (respond-IsPageOf f keyed there) h2 in
          (
            f,
            q,
            own,
            subst (λ o. IsPageOf authorize_item f (served authorize_item size new token c o).0 p)
                (sym checked) w,
          )
    ]
  ]
