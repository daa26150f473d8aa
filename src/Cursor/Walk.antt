-- ===== src/Cursor/Walk.antt =====
-- Following the cursors of tools/operational_cursor.py from page to page.
use mathlib.Core.Path.{subst}
use mathlib.Core.Option.{some-injective}
use native.Mathlib.Nat.{zero-add, suc-add}
use mathlib.Core.List.{append-nil}
use ouf_api_gateway.Base.{
  ℕ, zero, suc, ◌+◌, ◌≤◌, ◌≡◌, refl, sym, ap, ◌∙◌, inl, inr, Bool, none, some, String, List, [],
  ◌∷◌, ◌++◌, nat_eq, string_eq, ok, arith, Bool-cases, length, select, take,
}
use ouf_api_gateway.Incidents.Store.{OperationalIncident}
use ouf_api_gateway.Cursor.Snapshot.{Identity, Cursors}
use ouf_api_gateway.Cursor.Pages.{
  Frame, Page, frame_of, page_rows, next_position, has_more, drop, page,
}
use ouf_api_gateway.Cursor.Contract.{IsKeyed, IsPageOf, page-IsPageOf}
use ouf_api_gateway.Cursor.Keyed.{IsNew, page-IsKeyed, Reachable, Reachable-IsKeyed}

take-drop : {A : Type 0} (n : ℕ) (xs : List A) → xs ≡ take n xs ++ drop (length (take n xs)) xs
take-drop zero xs = refl
take-drop (suc n) [] = refl
take-drop (suc n) (x ∷ xs) = ap (λ ys. x ∷ ys) (take-drop n xs)

drop-add : {A : Type 0} (p k : ℕ) (xs : List A) → drop (p + k) xs ≡ drop k (drop p xs)
drop-add zero k xs = rw zero-add refl
drop-add (suc p) zero [] = rw suc-add refl
drop-add (suc p) (suc k) [] = rw suc-add refl
drop-add (suc p) k (x ∷ xs) = rw suc-add (drop-add p k xs)

drop-all : {A : Type 0} (p : ℕ) (xs : List A) → length xs ≤ p → drop p xs ≡ []
drop-all zero [] h = refl
drop-all zero (x ∷ xs) h = absurd (omega (arith, h))
drop-all (suc p) [] h = refl
drop-all (suc p) (x ∷ xs) h = drop-all p xs (omega (arith, h))

select-append :
    {A : Type 0} (p : A → Bool) (xs ys : List A) → select p (xs ++ ys) ≡ select p xs ++ select p ys
select-append p [] ys = refl
select-append p (x ∷ xs) ys = elim (Bool-cases (p x)) [
  | inl on ↦ rw on (ap (λ zs. x ∷ zs) (select-append p xs ys))
  | inr off ↦ rw off (select-append p xs ys)
]

-- The rows from a frame's position on are its page's and those from the next position on.
frame_rows :
    (f : Frame)
    → drop f.position f.session.items ≡ page_rows f ++ drop (next_position f) f.session.items
frame_rows f =
    take-drop f.session.page_limit (drop f.position f.session.items)
    ∙ ap (λ ys. page_rows f ++ ys)
        (sym (drop-add f.position (length (page_rows f)) f.session.items))

module _ (authorize_item : OperationalIncident → Bool) (size : Page → ℕ) (i : Identity)
    (policy_ref : String) where
  -- Reading on from a cursor until a page has no next one: the items that the pages hold.
  pub data ReadsOn : Cursors → String → List OperationalIncident → Type 0 where
    last :
        (new now : String) (p : Page) {c : Cursors} {token : String}
        → (page authorize_item size new token now i policy_ref c).1 ≡ ok p
        → p.next_cursor ≡ none
        → ReadsOn c token p.items
    more :
        (new now : String) (p : Page) (t : String) {c : Cursors} {token : String}
        {rest : List OperationalIncident}
        → (page authorize_item size new token now i policy_ref c).1 ≡ ok p
        → p.next_cursor ≡ some t
        → IsNew new c.tokens
        → ReadsOn (page authorize_item size new token now i policy_ref c).0 t rest
        → ReadsOn c token (p.items ++ rest)

  -- The items that the policy allows among those from the cursor's position on.
  abbrev pub IsWhole : Cursors → String → List OperationalIncident → Type 0
  IsWhole c token xs =
      (f : Frame) × (frame_of token c ≡ some f)
      × (xs ≡ select authorize_item (drop f.position f.session.items))

  last-IsWhole :
      (c : Cursors) (token : String) (c' : Cursors) (p : Page) (f : Frame)
      → frame_of token c ≡ some f
      → IsPageOf authorize_item f c' p
      → p.next_cursor ≡ none
      → IsWhole c token p.items
  last-IsWhole c token c' p f found is_page ended = elim (Bool-cases p.truncated) [
    | inl on ↦ absurd (let n = is_page.next_frame on in let q = n.1 in ground arith)
    | inr off ↦
        let over : length f.session.items ≤ next_position f = elim (Bool-cases (has_more f)) [
          | inl on ↦ absurd (let t = is_page.more.1 (ground arith) in ground arith)
          | inr none_left ↦ ground arith
        ] in
        let all_rows =
          frame_rows f
          ∙ ap (λ ys. page_rows f ++ ys) (drop-all (next_position f) f.session.items over)
          ∙ append-nil (page_rows f) in
        (f, found, is_page.items ∙ ap (select authorize_item) (sym all_rows))
  ]

  more-IsWhole :
      (c : Cursors) (token : String) (c' : Cursors) (p : Page) (f : Frame) (t : String)
      (rest : List OperationalIncident)
      → frame_of token c ≡ some f
      → IsPageOf authorize_item f c' p
      → p.next_cursor ≡ some t
      → IsWhole c' t rest
      → IsWhole c token (p.items ++ rest)
  more-IsWhole c token c' p f t rest found is_page goes (g, at_t, whole) =
      elim (Bool-cases p.truncated) [
        | inr off ↦ absurd (let q = is_page.last off in ground arith)
        | inl on ↦
            let n = is_page.next_frame on in
            let same : n.0 ≡ t = some-injective _ _ (sym n.1 ∙ goes) in
            let framed = some-injective _ _ (
              sym (
                subst
                  (λ x.
                    frame_of x c'
                    ≡ some (record { session = f.session; position = next_position f }))
                  same n.2)
              ∙ at_t) in
            let whole' =
              subst (λ (h : Frame). rest ≡ select authorize_item (drop h.position h.session.items))
                (sym framed) whole in
            (
              f,
              found,
              ap (λ ys. ys ++ rest) is_page.items
                  ∙ ap (λ ys. select authorize_item (page_rows f) ++ ys) whole'
                  ∙ sym (select-append authorize_item (page_rows f) _)
                  ∙ ap (select authorize_item) (sym (frame_rows f)),
            )
      ]

  read-IsWhole :
      {c : Cursors} {token : String} {xs : List OperationalIncident}
      → ReadsOn c token xs
      → IsKeyed c.tokens
      → IsWhole c token xs
  read-IsWhole (last new now p {c} {token} h ended) keyed =
      let f = page-IsPageOf authorize_item size new token c now i policy_ref p keyed h in
      last-IsWhole c token _ p f.0 f.1 f.3 ended
  read-IsWhole (more new now p t {c} {token} {rest} h goes fresh w) keyed =
      let f = page-IsPageOf authorize_item size new token c now i policy_ref p keyed h in
      more-IsWhole c token _ p f.0 t rest f.1 f.3 goes
        (read-IsWhole w (page-IsKeyed authorize_item size new token now i policy_ref c fresh keyed))

  -- In every state of the cursors that captures and pages reach: whoever reads on from a cursor
  -- until a page has no next one, while the policy decides each row alike, has read the items that
  -- the policy allows among those from the cursor's position on, each once and in their order.
  pub ReadsOn-IsWhole :
      (c : Cursors) (token : String) (xs : List OperationalIncident)
      → Reachable c
      → ReadsOn c token xs
      → IsWhole c token xs
  ReadsOn-IsWhole c token xs reached w = read-IsWhole w (Reachable-IsKeyed reached)
