-- ===== src/Bookmarks/Places.antt =====
-- Where the tokens and the marks of a store stand: at the first row of a page of their session.
use mathlib.Core.Path.{subst}
use mathlib.Core.Option.{some-injective}
use ouf_api_gateway.Base.{
  All-select, ℕ, zero, suc, ◌+◌, ◌*◌, ◌<◌, ◌≡◌, refl, sym, ap, ◌∙◌, ◌⊎◌, inl, inr, Bool, true,
  false, ◌&&◌, none, some, String, List, [], ◌∷◌, ◌==◌, ◌≠◌, nat_eq, string_eq, arith, Bool-cases,
  Option-cases, All, select, take, length, eq_iff,
}
use ouf_api_gateway.Cursor.Snapshot.{Session, Token, Cursors}
use ouf_api_gateway.Cursor.Pages.{
  Frame, frame_of, find_token, find_session, drop, next_position, has_more, token_at, advance_token,
}
use ouf_api_gateway.Bookmarks.Table.{PageMark, mark_page}

-- A position at which a page of the session begins.
abbrev pub IsStart : Session → ℕ → Type 0
IsStart s p = (k : ℕ) × (p ≡ k * s.page_limit) × ((p ≡ 0) ⊎ (p < length s.items))

-- A position that is a page's start where its session is there.
abbrev pub IsPlaced : List Session → String → ℕ → Type 0
IsPlaced ss id p = (s : Session) → find_session id ss ≡ some s → IsStart s p

abbrev pub ArePlaced : List Session → List Token → Type 0
ArePlaced ss ts = All (λ (t : Token). IsPlaced ss t.session_id t.position) ts

abbrev pub AreMarksPlaced : List Session → List PageMark → Type 0
AreMarksPlaced ss ms = All (λ (m : PageMark). IsPlaced ss m.session_id m.position) ms

abbrev pub same_place : PageMark → PageMark → Bool
same_place m n = (m.session_id == n.session_id) && (m.position == n.position)

-- A session has one mark for a position.
abbrev pub HaveOwnPlaces : List PageMark → Type 0
HaveOwnPlaces [] = Unit
HaveOwnPlaces (m ∷ ms) = All (λ n. same_place m n ≡ false) ms × HaveOwnPlaces ms

find_session-gone :
    (gone : String) (ss : List Session)
    → find_session gone (select (λ (x : Session). x.session_id ≠ gone) ss) ≡ none
unfolding find_session
find_session-gone gone [] = refl
find_session-gone gone (x ∷ ss) = ground (arith, find_session-gone gone ss)

find_session-kept :
    (id gone : String) (ss : List Session)
    → (id == gone) ≡ false
    → find_session id (select (λ (x : Session). x.session_id ≠ gone) ss) ≡ find_session id ss
unfolding find_session
find_session-kept id gone [] apart = refl
find_session-kept id gone (x ∷ ss) apart = ground (
  arith,
  eq_iff x.session_id gone,
  eq_iff x.session_id id,
  eq_iff id gone,
  find_session-kept id gone ss apart,
)

-- A session that is found behind a deletion was found before it.
pub find_session-select :
    (id gone : String) (ss : List Session) (s : Session)
    → find_session id (select (λ (x : Session). x.session_id ≠ gone) ss) ≡ some s
    → find_session id ss ≡ some s
find_session-select id gone ss s h = elim (Bool-cases (id == gone)) [
  | inl same ↦ absurd (
      let none_there = find_session-gone gone ss in
      let q = (eq_iff id gone).0 same in
      let h' =
        subst (λ k. find_session k (select (λ (x : Session). x.session_id ≠ gone) ss) ≡ some s) q
          h in
      ground arith)
  | inr apart ↦ sym (find_session-kept id gone ss apart) ∙ h
]

-- `Q` of a session's id and a position is kept by a mark, where it holds of the new one.
pub mark_page-All :
    (Q : String → ℕ → Type 0) (id : String) (position : ℕ) (complete : Bool) (ms : List PageMark)
    → Q id position
    → All (λ (m : PageMark). Q m.session_id m.position) ms
    → All (λ (m : PageMark). Q m.session_id m.position) (mark_page id position complete ms)
unfolding mark_page
mark_page-All Q id position complete [] q h = (q, tt)
mark_page-All Q id position complete (m ∷ ms) q (qm, h) =
    elim (Bool-cases ((m.session_id == id) && (m.position == position))) [
      | inl here ↦ rw here (qm, h)
      | inr apart ↦ rw apart (qm, mark_page-All Q id position complete ms q h)
    ]

pub mark_page-HaveOwnPlaces :
    (id : String) (position : ℕ) (complete : Bool) (ms : List PageMark)
    → HaveOwnPlaces ms
    → HaveOwnPlaces (mark_page id position complete ms)
unfolding mark_page
mark_page-HaveOwnPlaces id position complete [] own = (tt, tt)
mark_page-HaveOwnPlaces id position complete (m ∷ ms) (fresh, own) =
    elim (Bool-cases ((m.session_id == id) && (m.position == position))) [
      | inl here ↦ rw here (fresh, own)
      | inr apart ↦ rw apart (
        mark_page-All (λ i p. ((m.session_id == i) && (m.position == p)) ≡ false) id position
            complete ms apart fresh,
        mark_page-HaveOwnPlaces id position complete ms own,
      )
    ]

pub select-HaveOwnPlaces :
    (p : PageMark → Bool) (ms : List PageMark) → HaveOwnPlaces ms → HaveOwnPlaces (select p ms)
select-HaveOwnPlaces p [] own = tt
select-HaveOwnPlaces p (m ∷ ms) (fresh, own) = elim (Bool-cases (p m)) [
  | inl on ↦
      rw on (All-select p (λ n. same_place m n ≡ false) ms fresh, select-HaveOwnPlaces p ms own)
  | inr off ↦ rw off (select-HaveOwnPlaces p ms own)
]

-- A page that others follow is full.
length-take-drop :
    {A : Type 0} (limit p : ℕ) (xs : List A)
    → p + length (take limit (drop p xs)) < length xs
    → length (take limit (drop p xs)) ≡ limit
length-take-drop zero zero xs h = refl
length-take-drop (suc limit) zero [] h = absurd (omega (arith, h))
length-take-drop (suc limit) zero (x ∷ xs) h =
    let ih = length-take-drop limit zero xs (omega (arith, h)) in omega (arith, ih)
length-take-drop limit (suc p) [] h = absurd (omega (arith, h))
length-take-drop limit (suc p) (x ∷ xs) h = length-take-drop limit p xs (omega (arith, h))

-- The next page of a page that begins at a start begins at a start.
pub next_position-IsStart :
    (f : Frame)
    → IsStart f.session f.position
    → has_more f ≡ true
    → IsStart f.session (next_position f)
next_position-IsStart f (k, q, within) more =
    let full = length-take-drop f.session.page_limit f.position f.session.items (ground arith) in
    (
      suc k,
      (ap (λ n. f.position + n) full
          ∙ ap (λ n. n + f.session.page_limit) q
          ∙ next k f.session.page_limit),
      inr (ground arith),
    )
  where
    next : (k l : ℕ) → k * l + l ≡ suc k * l
    next k l = omega arith

find_token-IsPlaced :
    (ss : List Session) (token : String) (ts : List Token) (t : Token)
    → ArePlaced ss ts
    → find_token token ts ≡ some t
    → IsPlaced ss t.session_id t.position
unfolding find_token
find_token-IsPlaced ss token [] t h q = absurd (ground arith)
find_token-IsPlaced ss token (x ∷ ts) t (p, h) q = elim (Bool-cases (x.token == token)) [
  | inl on ↦
      subst (λ (y : Token). IsPlaced ss y.session_id y.position)
        (some-injective x t (let q' = rw on at q in q')) p
  | inr off ↦ find_token-IsPlaced ss token ts t h (let q' = rw off at q in q')
]

-- A frame begins at a start of its session, which is there under its own id.
pub frame_of-IsStart :
    (token : String) (c : Cursors) (f : Frame)
    → ArePlaced c.sessions c.tokens
    → frame_of token c ≡ some f
    → IsStart f.session f.position
unfolding frame_of
frame_of-IsStart token c f placed h = elim (Option-cases (find_token token c.tokens)) [
  | inl q ↦ absurd (let h' = rw q at h in ground arith)
  | inr (t, q) ↦ elim (Option-cases (find_session t.session_id c.sessions)) [
    | inl p ↦ absurd (let h' = rw (q, p) at h in ground arith)
    | inr (s, p) ↦
        let same = some-injective _ f (let h' = rw (q, p) at h in h') in
        subst (λ (g : Frame). IsStart g.session g.position) same
          (find_token-IsPlaced c.sessions token c.tokens t placed q s p)
  ]
]

pub advance_token-ArePlaced :
    (new : String) (f : Frame) (c : Cursors)
    → find_session f.session.session_id c.sessions ≡ some f.session
    → IsStart f.session (next_position f)
    → ArePlaced c.sessions c.tokens
    → ArePlaced
        (advance_token new f.session.session_id (next_position f) c).0.sessions
        (advance_token new f.session.session_id (next_position f) c).0.tokens
unfolding advance_token
advance_token-ArePlaced new f c there start placed =
    elim (Option-cases (token_at f.session.session_id (next_position f) c.tokens)) [
      | inr (old, q) ↦ rw q placed
      | inl q ↦ rw q (
        (λ s found.
            subst (λ x. IsStart x (next_position f))
              (some-injective f.session s (sym there ∙ found)) start),
        placed,
      )
    ]

pub advance_token-sessions :
    (new id : String) (position : ℕ) (c : Cursors)
    → (advance_token new id position c).0.sessions ≡ c.sessions
unfolding advance_token
advance_token-sessions new id position c = elim (Option-cases (token_at id position c.tokens)) [
  | inr (old, q) ↦ rw q refl
  | inl q ↦ rw q refl
]
