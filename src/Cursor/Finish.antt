-- ===== src/Cursor/Finish.antt =====
-- Reading on along the cursors of tools/operational_cursor.py comes to an end.
use mathlib.Core.Path.{subst}
use mathlib.Core.Option.{some-injective}
use ouf_api_gateway.Base.{
  Outcome, raised, true, ◌<◌, ◌⊎◌, ℕ, zero, suc, ◌+◌, ◌≤◌, ◌≡◌, refl, sym, ap, ◌∙◌, inl, inr, Bool,
  false, some, String, List, [], ◌∷◌, ◌++◌, ◌==◌, nat_eq, string_eq, ok, arith, Bool-cases,
  Option-cases, All, length, select, take, ltb,
}
use ouf_api_gateway.Incidents.Store.{OperationalIncident}
use ouf_api_gateway.Cursor.Snapshot.{CursorRejected, response_capacity, Identity, Token, Cursors}
use ouf_api_gateway.Cursor.Pages.{
  Frame, Page, frame_of, token_at, next_position, has_more, drop, advance_token, respond,
  check_frame, page,
}
use ouf_api_gateway.Cursor.Contract.{IsKeyed, IsPageOf, page-IsPageOf}
use ouf_api_gateway.Cursor.Keyed.{IsNew, page-IsKeyed, Reachable, Reachable-IsKeyed}
use ouf_api_gateway.Cursor.Walk.{ReadsOn, last, more, ReadsOn-IsWhole}

-- Tokens to draw one after the other: no row has one of them, and no two are the same.
abbrev pub AreNew : List String → List Token → Type 0
AreNew [] ts = Unit
AreNew (n ∷ ns) ts = IsNew n ts × All (λ m. (n == m) ≡ false) ns × AreNew ns ts

take-nonempty :
    {A : Type 0} (limit p : ℕ) (xs : List A)
    → 1 ≤ limit
    → p + 1 ≤ length xs
    → 1 ≤ length (take limit (drop p xs))
take-nonempty zero p xs some_rows h = absurd (omega (arith, some_rows))
take-nonempty (suc l) zero [] some_rows h = absurd (omega (arith, h))
take-nonempty (suc l) zero (x ∷ xs) some_rows h = omega arith
take-nonempty (suc l) (suc p) [] some_rows h = absurd (omega (arith, h))
take-nonempty (suc l) (suc p) (x ∷ xs) some_rows h =
    take-nonempty (suc l) p xs some_rows (omega (arith, h))

advance_token-IsNew :
    (m new id : String) (position : ℕ) (c : Cursors)
    → (new == m) ≡ false
    → IsNew m c.tokens
    → IsNew m (advance_token new id position c).0.tokens
unfolding advance_token
advance_token-IsNew m new id position c apart fresh =
    elim (Option-cases (token_at id position c.tokens)) [
      | inr (old, q) ↦ rw q fresh
      | inl q ↦ rw q (apart, fresh)
    ]

respond-IsNew :
    (authorize_item : OperationalIncident → Bool) (m new token : String) (f : Frame) (c : Cursors)
    → (new == m) ≡ false
    → IsNew m c.tokens
    → IsNew m (respond authorize_item new token f c).0.tokens
unfolding respond
respond-IsNew authorize_item m new token f c apart fresh = elim (Bool-cases (has_more f)) [
  | inr off ↦ rw (off, respond) fresh
  | inl on ↦
      rw (on, respond)
        (advance_token-IsNew m new f.session.session_id (next_position f) c apart fresh)
]

respond-AreNew :
    (authorize_item : OperationalIncident → Bool) (new token : String) (f : Frame) (c : Cursors)
    (ns : List String)
    → All (λ m. (new == m) ≡ false) ns
    → AreNew ns c.tokens
    → AreNew ns (respond authorize_item new token f c).0.tokens
respond-AreNew authorize_item new token f c [] apart fresh = tt
respond-AreNew authorize_item new token f c (n ∷ ns) (apart, others) (fresh, distinct, rest) = (
  respond-IsNew authorize_item n new token f c apart fresh,
  distinct,
  respond-AreNew authorize_item new token f c ns others rest,
)

module _ (authorize_item : OperationalIncident → Bool) (size : Page → ℕ) (now : String)
    (i : Identity) (policy_ref : String) where
  -- Reading on from a cursor until a page is refused whose encoding takes more than 524288 bytes.
  pub data Halts : Cursors → String → Type 0 where
    too_large :
        (new : String) (f : Frame) {c : Cursors} {token : String}
        → frame_of token c ≡ some f
        → 524288 < size (respond authorize_item new token f c).1
        → (page authorize_item size new token now i policy_ref c).1 ≡ raised response_capacity
        → Halts c token
    further :
        (new : String) (p : Page) (t : String) {c : Cursors} {token : String}
        → (page authorize_item size new token now i policy_ref c).1 ≡ ok p
        → p.next_cursor ≡ some t
        → IsNew new c.tokens
        → Halts (page authorize_item size new token now i policy_ref c).0 t
        → Halts c token

  -- A page whose encoding is small enough is returned.
  page-ok :
      (new token : String) (c : Cursors) (f : Frame)
      → ltb 524288 (size (respond authorize_item new token f c).1) ≡ false
      → frame_of token c ≡ some f
      → check_frame now i policy_ref (some f) ≡ ok f
      → page authorize_item size new token now i policy_ref c
        ≡ ((respond authorize_item new token f c).0, ok (respond authorize_item new token f c).1)
  unfolding page
  page-ok new token c f fine found checked = rw (found, checked, fine) refl

  page-Halts :
      (new token : String) (c : Cursors) (f : Frame)
      → ltb 524288 (size (respond authorize_item new token f c).1) ≡ true
      → frame_of token c ≡ some f
      → check_frame now i policy_ref (some f) ≡ ok f
      → Halts c token
  unfolding page
  page-Halts new token c f big found checked =
      too_large new f found (ground arith) (rw (found, checked, big) refl)

  -- A frame that passes the checks passes them at each position.
  checked-moved :
      (f : Frame) (position : ℕ)
      → check_frame now i policy_ref (some f) ≡ ok f
      → check_frame now i policy_ref (some (record { session = f.session; position = position }))
        ≡ ok (record { session = f.session; position = position })
  unfolding check_frame
  checked-moved f position checked = ground arith

  -- The page of a cursor that passes the checks is returned, and keeps further tokens new.
  record Returned (new token : String) (c : Cursors) (f : Frame) : Type 0 where
    pub answer : Page
    pub returned : (page authorize_item size new token now i policy_ref c).1 ≡ ok answer
    pub is_page :
        IsPageOf authorize_item f (page authorize_item size new token now i policy_ref c).0 answer
    pub still_new :
        (ns : List String)
        → All (λ m. (new == m) ≡ false) ns
        → AreNew ns c.tokens
        → AreNew ns (page authorize_item size new token now i policy_ref c).0.tokens

  page-Returned :
      (new token : String) (c : Cursors) (f : Frame)
      → ltb 524288 (size (respond authorize_item new token f c).1) ≡ false
      → IsKeyed c.tokens
      → frame_of token c ≡ some f
      → check_frame now i policy_ref (some f) ≡ ok f
      → Returned new token c f
  page-Returned new token c f fine keyed found checked =
      let p = (respond authorize_item new token f c).1 in
      let same = page-ok new token c f fine found checked in
      let h = ap (λ (r : Cursors × Outcome CursorRejected Page). r.1) same in
      let (g, at, own, w) =
        page-IsPageOf authorize_item size new token c now i policy_ref p keyed h in
      record {
        answer = p;
        returned = h;
        is_page =
            subst
              (λ x.
                IsPageOf authorize_item x (page authorize_item size new token now i policy_ref c).0
                  (respond authorize_item new token f c).1)
              (some-injective g f (sym at ∙ found)) w;
        still_new = λ ns apart fresh.
            subst (λ (r : Cursors × Outcome CursorRejected Page). AreNew ns r.0.tokens) (sym same)
              (respond-AreNew authorize_item new token f c ns apart fresh);
      }

  -- A reading to the end, or to a page that is refused.
  abbrev Goes : Cursors → String → Type 0
  Goes c token =
      ((xs : List OperationalIncident) × ReadsOn authorize_item size i policy_ref c token xs)
      ⊎ Halts c token

  last-Goes :
      (new token : String) (c : Cursors) (f : Frame)
      → (r : Returned new token c f) → r.answer.truncated ≡ false
      → Goes c token
  last-Goes new token c f r off =
      inl (r.answer.items, last new now r.answer r.returned (r.is_page.last off))

  more-Goes :
      (new token t : String) (c : Cursors) (p : Page)
      → (page authorize_item size new token now i policy_ref c).1 ≡ ok p
      → p.next_cursor ≡ some t
      → IsNew new c.tokens
      → Goes (page authorize_item size new token now i policy_ref c).0 t
      → Goes c token
  more-Goes new token t c p h goes fresh (inl (xs, w)) =
      inl (p.items ++ xs, more new now p t h goes fresh w)
  more-Goes new token t c p h goes fresh (inr w) = inr (further new p t h goes fresh w)

  reading-Goes :
      (ns : List String) (token : String) (c : Cursors) (f : Frame)
      → IsKeyed c.tokens
      → AreNew ns c.tokens
      → frame_of token c ≡ some f
      → check_frame now i policy_ref (some f) ≡ ok f
      → 1 ≤ f.session.page_limit
      → length f.session.items ≤ f.position + length ns
      → Goes c token
  reading-Goes [] token c f keyed fresh found checked some_rows enough =
      elim (Bool-cases (ltb 524288 (size (respond authorize_item "" token f c).1))) [
        | inl big ↦ inr (page-Halts "" token c f big found checked)
        | inr fine ↦
            let r = page-Returned "" token c f fine keyed found checked in
            elim (Bool-cases r.answer.truncated) [
              | inr off ↦ last-Goes "" token c f r off
              | inl on ↦ absurd (let m = r.is_page.more.0 on in omega (arith, m, enough))
            ]
      ]
  reading-Goes (n ∷ ns) token c f keyed (new, apart, fresh) found checked some_rows enough =
      elim (Bool-cases (ltb 524288 (size (respond authorize_item n token f c).1))) [
        | inl big ↦ inr (page-Halts n token c f big found checked)
        | inr fine ↦
            let r = page-Returned n token c f fine keyed found checked in
            elim (Bool-cases r.answer.truncated) [
              | inr off ↦ last-Goes n token c f r off
              | inl on ↦
                  let follows = r.is_page.more.0 on in
                  let (t, goes, at) = r.is_page.next_frame on in
                  let row =
                    take-nonempty f.session.page_limit f.position f.session.items some_rows
                      (omega (arith, follows)) in
                  more-Goes n token t c r.answer r.returned goes new (
                    reading-Goes ns t (page authorize_item size n token now i policy_ref c).0
                      (record { session = f.session; position = next_position f })
                      (page-IsKeyed authorize_item size n token now i policy_ref c new keyed)
                      (r.still_new ns apart fresh) at (checked-moved f (next_position f) checked)
                      some_rows (omega (arith, enough, row)))
            ]
      ]

  -- In every state of the cursors that captures and pages reach: whoever may read on from a cursor
  -- now, of a session whose pages hold at least one row, and with as many new tokens to be drawn as
  -- rows are left, either reads pages until one has no next one, and has then read exactly the items
  -- that the policy allows from the cursor's position on; or comes to a page whose encoding takes
  -- more than 524288 bytes, which is refused as such.
  pub reading_returns :
      (ns : List String) (token : String) (c : Cursors) (f : Frame)
      → Reachable c
      → AreNew ns c.tokens
      → frame_of token c ≡ some f
      → check_frame now i policy_ref (some f) ≡ ok f
      → 1 ≤ f.session.page_limit
      → length f.session.items ≤ f.position + length ns
      → ((xs : List OperationalIncident) × ReadsOn authorize_item size i policy_ref c token xs
          × (xs ≡ select authorize_item (drop f.position f.session.items)))
        ⊎ Halts c token
  reading_returns ns token c f reached fresh found checked some_rows enough =
      elim (reading-Goes ns token c f (Reachable-IsKeyed reached) fresh found checked some_rows
        enough) [
          | inr halted ↦ inr halted
          | inl (xs, w) ↦
              let (g, at, whole) =
                ReadsOn-IsWhole authorize_item size i policy_ref c token xs reached w in
              inl (
                xs,
                w,
                subst (λ (x : Frame). xs ≡ select authorize_item (drop x.position x.session.items))
                    (some-injective g f (sym at ∙ found)) whole,
              )
        ]
