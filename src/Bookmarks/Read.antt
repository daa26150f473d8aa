-- ===== src/Bookmarks/Read.antt =====
-- As many complete marks as a session has pages: then each of its items has been read.
use mathlib.Core.Path.{subst}
use Prim.Native.Nat.{◌/◌}
use native.Mathlib.Nat.{lt_of_mul-lt-mul_right, div-mul-le_self, lt-div-mul-add}
use ouf_api_gateway.Base.{
  All-map, ℕ, zero, suc, ◌+◌, ◌*◌, ◌≤◌, ◌<◌, ◌≡◌, refl, sym, ◌∙◌, inl, inr, Bool, true, false, ◌&&◌,
  some, String, List, [], ◌∷◌, ◌==◌, nat_eq, string_eq, arith, Bool-cases, All, any, count,
  contains, length, leb, ltb, if◌then◌else◌, eq_iff,
}
use ouf_api_gateway.Cursor.Snapshot.{Session}
use ouf_api_gateway.Cursor.Pages.{find_session}
use ouf_api_gateway.Bookmarks.Table.{PageMark, is_complete_of, is_ceiling, is_covered}
use ouf_api_gateway.Bookmarks.Pigeonhole.{AreDistinct, IsMultiple, all-there}
use ouf_api_gateway.Bookmarks.Places.{IsStart, IsPlaced, AreMarksPlaced, HaveOwnPlaces, same_place}

-- The item lies on a page that is marked complete.
abbrev pub is_read : Session → List PageMark → ℕ → Bool
is_read s ms j =
    any
      (λ (m : PageMark).
        is_complete_of s.session_id m && leb m.position j && ltb j (m.position + s.page_limit))
      ms

-- The first `n` items do.
unfoldable pub all_read : Session → List PageMark → ℕ → Bool
all_read s ms zero = true
all_read s ms (suc n) = is_read s ms n && all_read s ms n

places : String → List PageMark → List ℕ
places id [] = []
places id (m ∷ ms) =
    let rest = places id ms in if is_complete_of id m then m.position ∷ rest else rest

length-places :
    (id : String) (ms : List PageMark) → length (places id ms) ≡ count (is_complete_of id) ms
unfolding places
length-places id [] = refl
length-places id (m ∷ ms) = elim (Bool-cases (is_complete_of id m)) [
  | inl on ↦ rw on (omega (arith, length-places id ms))
  | inr off ↦ rw off (omega (arith, length-places id ms))
]

places-apart :
    (id : String) (m : PageMark) (ms : List PageMark)
    → (m.session_id == id) ≡ true
    → All (λ n. same_place m n ≡ false) ms
    → contains (places id ms) m.position ≡ false
unfolding places
places-apart id m [] own h = refl
places-apart id m (n ∷ ms) own (apart, h) = elim (Bool-cases (is_complete_of id n)) [
  | inr off ↦ rw off (places-apart id m ms own h)
  | inl on ↦
      let ih = places-apart id m ms own h in
      rw on (
        ground (
          arith,
          ih,
          eq_iff m.session_id id,
          eq_iff n.session_id id,
          eq_iff m.session_id n.session_id,
        ))
]

places-AreDistinct :
    (id : String) (ms : List PageMark) → HaveOwnPlaces ms → AreDistinct (places id ms)
unfolding places
places-AreDistinct id [] own = tt
places-AreDistinct id (m ∷ ms) (apart, own) = elim (Bool-cases (is_complete_of id m)) [
  | inl on ↦ rw on (places-apart id m ms (ground arith) apart, places-AreDistinct id ms own)
  | inr off ↦ rw off (places-AreDistinct id ms own)
]

places-All :
    (Q : String → ℕ → Type 0) (id : String) (ms : List PageMark)
    → All (λ (m : PageMark). Q m.session_id m.position) ms
    → All (Q id) (places id ms)
unfolding places
places-All Q id [] h = tt
places-All Q id (m ∷ ms) (q, h) = elim (Bool-cases (is_complete_of id m)) [
  | inl on ↦ rw on (
    subst (λ i. Q i m.position) ((eq_iff m.session_id id).0 (ground arith)) q,
    places-All Q id ms h,
  )
  | inr off ↦ rw off (places-All Q id ms h)
]

places-is_read :
    (s : Session) (ms : List PageMark) (q j : ℕ)
    → contains (places s.session_id ms) q ≡ true
    → q ≤ j
    → j < q + s.page_limit
    → is_read s ms j ≡ true
unfolding places
places-is_read s [] q j there from to = absurd (ground arith)
places-is_read s (m ∷ ms) q j there from to = elim (Bool-cases (is_complete_of s.session_id m)) [
  | inr off ↦
      let ih = places-is_read s ms q j (let h = rw off at there in h) from to in ground arith
  | inl on ↦ elim (Bool-cases (q == m.position)) [
    | inl here ↦ ground arith
    | inr other ↦
        let ih = places-is_read s ms q j (let h = rw on at there in ground arith) from to in
        ground arith
  ]
]

no_multiple : (k l : ℕ) → k * l ≡ 0 → 1 ≤ l → k ≡ 0
no_multiple zero l q h = refl
no_multiple (suc k) l q h = absurd (omega (arith, q, h))

positive_of : (n l i : ℕ) → i + 1 ≤ n * l → 1 ≤ n
positive_of zero l i h = absurd (omega (arith, h))
positive_of (suc n) l i h = omega arith

-- A start is one of as many multiples as the session has pages.
start-IsMultiple :
    (s : Session) (pages p : ℕ)
    → 1 ≤ s.page_limit
    → is_ceiling pages (length s.items) s.page_limit ≡ true
    → IsStart s p
    → IsMultiple s.page_limit pages p
start-IsMultiple s pages p positive ceiling (k, q, within) =
    elim (Bool-cases (length s.items == 0)) [
      | inl empty ↦
          let at_zero : k * s.page_limit ≡ 0 = elim within [
            | inl z ↦ sym q ∙ z
            | inr b ↦ absurd (ground arith)
          ] in
          let z = no_multiple k s.page_limit at_zero positive in (k, q, ground arith)
      | inr full ↦
          let most : length s.items ≤ pages * s.page_limit = ground arith in
          (
            k,
            q,
            elim within [
              | inl z ↦
                  let at_zero = no_multiple k s.page_limit (sym q ∙ z) positive in
                  let some_page = positive_of pages s.page_limit 0 (ground (arith, most)) in
                  omega (arith, at_zero, some_page)
              | inr b ↦ lt_of_mul-lt-mul_right s.page_limit (omega (arith, q, b, most))
            ],
          )
    ]

module _ (ss : List Session) (s : Session) (ms : List PageMark)
    (there : find_session s.session_id ss ≡ some s) (positive : 1 ≤ s.page_limit)
    (placed : AreMarksPlaced ss ms) (own : HaveOwnPlaces ms)
    (covered : is_covered s ms ≡ true) where
  multiples :
      All
        (IsMultiple s.page_limit (count (is_complete_of s.session_id) ms))
        (places s.session_id ms)
  multiples =
      All-map _ _
        (λ p h.
          start-IsMultiple s (count (is_complete_of s.session_id) ms) p positive covered
            (h s there))
        (places s.session_id ms) (places-All (IsPlaced ss) s.session_id ms placed)

  covered-is_read : (j : ℕ) → j < length s.items → is_read s ms j ≡ true
  covered-is_read j b =
      let pages = count (is_complete_of s.session_id) ms in
      let from = div-mul-le_self j s.page_limit in
      let to = lt-div-mul-add {a = j} {b = s.page_limit} (omega (arith, positive)) in
      let most : length s.items ≤ pages * s.page_limit = ground (arith, covered) in
      let within : j / s.page_limit < pages =
        lt_of_mul-lt-mul_right s.page_limit (omega (arith, from, b, most)) in
      places-is_read s ms (j / s.page_limit * s.page_limit) j
        (all-there s.page_limit pages (j / s.page_limit) (places s.session_id ms)
          (places-AreDistinct s.session_id ms own) multiples
          (omega (arith, length-places s.session_id ms)) within)
        from to

  pub covered-all_read : (n : ℕ) → n ≤ length s.items → all_read s ms n ≡ true
  unfolding all_read
  covered-all_read zero b = refl
  covered-all_read (suc n) b =
      let one = covered-is_read n (omega (arith, b)) in
      let rest = covered-all_read n (omega (arith, b)) in ground arith
