-- ===== src/Bookmarks/Paged.antt =====
-- A page of tools/operational_cursor.py keeps the tokens and the marks where pages begin.
use mathlib.Core.Path.{subst}
use ouf_api_gateway.Base.{
  ℕ, ◌≤◌, ◌≡◌, refl, sym, inl, inr, Bool, some, String, List, nat_eq, string_eq, Outcome-cases,
  Bool-cases, Option-cases, All,
}
use ouf_api_gateway.Incidents.Store.{OperationalIncident}
use ouf_api_gateway.Cursor.Snapshot.{Identity, Session, Cursors}
use ouf_api_gateway.Cursor.Pages.{
  Frame, Page, frame_of, find_session, has_more, next_position, check_frame, respond, first_part,
  with_next, answered, served, advance_token,
}
use ouf_api_gateway.Cursor.Pages as Pages
use ouf_api_gateway.Cursor.Contract.{frame_of-session, check_frame-frame}
use ouf_api_gateway.Bookmarks.Table.{PageMark}
use ouf_api_gateway.Bookmarks.Places.{
  IsStart, AreMarksPlaced, frame_of-IsStart, next_position-IsStart, advance_token-ArePlaced,
  advance_token-sessions,
}
use ouf_api_gateway.Bookmarks.Coherent.{IsCoherent}

answered-cursors : (size : Page → ℕ) (r : Cursors × Page) → (answered size r).0 ≡ r.0
answered-cursors size (c, page) = refl

with_next-cursors : (page : Page) (r : Cursors × String) → (with_next page r).0 ≡ r.0
with_next-cursors page (c, token) = refl

advance_token-IsCoherent :
    (new : String) (f : Frame) (c : Cursors) (ms : List PageMark)
    → find_session f.session.session_id c.sessions ≡ some f.session
    → IsStart f.session (next_position f)
    → IsCoherent c ms
    → IsCoherent (advance_token new f.session.session_id (next_position f) c).0 ms
advance_token-IsCoherent new f c ms there start h =
    let same = advance_token-sessions new f.session.session_id (next_position f) c in
    record {
      limited = subst (All (λ (s : Session). 1 ≤ s.page_limit)) (sym same) h.limited;
      placed = advance_token-ArePlaced new f c there start h.placed;
      marked = subst (λ ss. AreMarksPlaced ss ms) (sym same) h.marked;
      own = h.own;
    }

respond-IsCoherent :
    (authorize_item : OperationalIncident → Bool) (new token : String) (f : Frame) (c : Cursors)
    (ms : List PageMark)
    → frame_of token c ≡ some f
    → IsCoherent c ms
    → IsCoherent (respond authorize_item new token f c).0 ms
unfolding respond
respond-IsCoherent authorize_item new token f c ms found h = elim (Bool-cases (has_more f)) [
  | inr off ↦ rw (off, respond) h
  | inl on ↦
      rw (on, respond)
        (subst (λ x. IsCoherent x ms)
          (sym (
            with_next-cursors (first_part authorize_item token f)
              (advance_token new f.session.session_id (next_position f) c)))
          (advance_token-IsCoherent new f c ms (frame_of-session token c f found)
            (next_position-IsStart f (frame_of-IsStart token c f h.placed found) on) h))
]

-- A page of the cursor keeps the store coherent, whether it is answered or refused.
pub page-IsCoherent :
    (authorize_item : OperationalIncident → Bool) (size : Page → ℕ) (new token now : String)
    (i : Identity) (policy_ref : String) (c : Cursors) (ms : List PageMark)
    → IsCoherent c ms
    → IsCoherent (Pages.page authorize_item size new token now i policy_ref c).0 ms
unfolding Pages.page
page-IsCoherent authorize_item size new token now i policy_ref c ms h =
    elim (Option-cases (frame_of token c)) [
      | inl q ↦ rw (q, check_frame) h
      | inr (f, q) ↦ rw q (elim (Outcome-cases (check_frame now i policy_ref (some f))) [
        | inr (e, r) ↦ rw r h
        | inl (g, r) ↦
            let same = check_frame-frame now i policy_ref f g r in
            rw r (
              subst (λ x. IsCoherent x ms)
                (sym (answered-cursors size (respond authorize_item new token g c)))
                (subst (λ x. IsCoherent (respond authorize_item new token x c).0 ms) same.0
                  (respond-IsCoherent authorize_item new token f c ms q h)))
      ])
    ]
