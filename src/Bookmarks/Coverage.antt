-- ===== src/Bookmarks/Coverage.antt =====
-- What the issue of a bookmark leaves.
use mathlib.Core.Path.{subst}
use mathlib.Core.List.{Memᴰ}
use mathlib.Core.Option.{some-injective}
use ouf_api_gateway.Base.{
  ◌≤◌, ◌≡◌, ◌⊎◌, refl, nat_eq, sym, inl, inr, Bool, true, false, Option, none, some, String, List,
  [], ◌∷◌, Outcome, ok, arith, Option-cases, Bool-cases, length, select, ◌==◌, ◌≠◌, string_eq,
  eq_iff, text_le,
}
use ouf_api_gateway.Cursor.Snapshot.{Session}
use ouf_api_gateway.Cursor.Pages.{find_session}
use ouf_api_gateway.Bookmarks.Table.{
  BookmarkRejected, Reader, PageMark, Bookmark, Scoped, is_covered, is_unchanged, earliest,
  first_created, is_equivalent, of_session, oldest_expired, cleanup, has_capacity, new_bookmark,
  added, reused, issue,
}

abbrev IsLive : String → Bookmark → Type 0
IsLive now b = text_le b.expires_at now ≡ false

-- The token is the primary key.
abbrev pub HaveOwnTokens : List Bookmark → Type 0
HaveOwnTokens bs = (b c : Bookmark) → Memᴰ b bs → Memᴰ c bs → b.token ≡ c.token → b ≡ c

oldest_expired-member :
    (now : String) (bs : List Bookmark) (g : Bookmark)
    → oldest_expired now bs ≡ some g
    → Memᴰ g bs × (text_le g.expires_at now ≡ true)
unfolding oldest_expired
oldest_expired-member now [] g q = absurd (ground arith)
oldest_expired-member now (b ∷ bs) g q = elim (Bool-cases (text_le b.expires_at now)) [
  | inr live ↦
      let (m, e) = oldest_expired-member now bs g (let q' = rw (live, oldest_expired) at q in q') in
      (Memᴰ.tail m, e)
  | inl gone ↦ elim (Option-cases (oldest_expired now bs)) [
    | inl none_left ↦
        let same : b ≡ g =
          some-injective b g (let q' = rw (gone, none_left, oldest_expired) at q in q') in
        (Memᴰ.head (sym same), subst (λ (x : Bookmark). text_le x.expires_at now ≡ true) same gone)
    | inr (c, more) ↦
        let q' = rw (gone, more, oldest_expired) at q in
        let (m, e) = oldest_expired-member now bs c more in
        elim (Bool-cases (text_le b.expires_at c.expires_at)) [
          | inl first ↦
              let same : b ≡ g = some-injective b g (let q2 = rw first at q' in q2) in
              (
                Memᴰ.head (sym same),
                subst (λ (x : Bookmark). text_le x.expires_at now ≡ true) same gone,
              )
          | inr later ↦
              let same : c ≡ g = some-injective c g (let q2 = rw later at q' in q2) in
              (
                Memᴰ.tail (subst (λ x. Memᴰ x bs) same m),
                subst (λ (x : Bookmark). text_le x.expires_at now ≡ true) same e,
              )
        ]
  ]
]

select-member :
    (p : Bookmark → Bool) (bs : List Bookmark) (b : Bookmark)
    → Memᴰ b bs
    → p b ≡ true
    → Memᴰ b (select p bs)
select-member p [] b m on = elim m [ ]
select-member p (x ∷ bs) b (Memᴰ.head q) on =
    let on' : p x ≡ true = subst (λ y. p y ≡ true) q on in rw on' (Memᴰ.head q)
select-member p (x ∷ bs) b (Memᴰ.tail m) on = elim (Bool-cases (p x)) [
  | inl keep ↦ rw keep (Memᴰ.tail (select-member p bs b m on))
  | inr drop_it ↦ rw drop_it (select-member p bs b m on)
]

cleanup_keeps :
    (now : String) (bs : List Bookmark)
    → HaveOwnTokens bs
    → (b : Bookmark) → Memᴰ b bs
    → IsLive now b
    → Memᴰ b (cleanup now bs)
unfolding cleanup
cleanup_keeps now bs own b m live = elim (Option-cases (oldest_expired now bs)) [
  | inl q ↦ rw q m
  | inr (g, q) ↦
      let (gm, expired) = oldest_expired-member now bs g q in
      elim (Bool-cases (b.token == g.token)) [
        | inl same ↦
            let e : b ≡ g = own b g m gm ((eq_iff b.token g.token).0 same) in
            absurd (
              let expired' =
                subst (λ (x : Bookmark). text_le x.expires_at now ≡ true) (sym e) expired in
              ground arith)
        | inr other ↦
            rw q (select-member (λ (x : Bookmark). x.token ≠ g.token) bs b m (ground arith))
      ]
]

first_created-cases :
    (b g : Bookmark) (o : Option Bookmark) → first_created b o ≡ some g → (b ≡ g) ⊎ (o ≡ some g)
first_created-cases b g none q = inl (some-injective b g q)
first_created-cases b g (some c) q = ground arith

earliest-member :
    (p : Bookmark → Bool) (bs : List Bookmark) (g : Bookmark)
    → earliest p bs ≡ some g
    → Memᴰ g bs × (p g ≡ true)
unfolding earliest
earliest-member p [] g q = absurd (ground arith)
earliest-member p (b ∷ bs) g q = elim (Bool-cases (p b)) [
  | inr off ↦
      let (m, e) = earliest-member p bs g (let q' = rw (off, earliest) at q in q') in
      (Memᴰ.tail m, e)
  | inl on ↦
      elim (first_created-cases b g (earliest p bs) (let q' = rw (on, earliest) at q in q')) [
        | inl same ↦ (Memᴰ.head (sym same), subst (λ x. p x ≡ true) same on)
        | inr later ↦ let (m, e) = earliest-member p bs g later in (Memᴰ.tail m, e)
      ]
]

module _ (token now expiry : String) (r : Reader) (policy : String) (f : Scoped)
    (bs bs' : List Bookmark) (t : String) where
  -- A bookmark of the session, or of the same position for the same reader.
  abbrev pub IsFor : Bookmark → Type 0
  IsFor b =
      (b.session_id ≡ f.session.session_id)
      ⊎ ((b.watermark ≡ f.session.watermark)
          × (b.filters ≡ f.filters)
          × (b.identity_digest ≡ r.identity_digest)
          × (b.policy_ref ≡ policy)
          × (text_le b.expires_at now ≡ false))

  -- The token that is returned, and the bookmarks that are left.
  pub record IsIssued (after : List Bookmark) : Type 0 where
    pub stands : (b : Bookmark) × Memᴰ b after × (b.token ≡ t) × IsFor b
    pub kept : (b : Bookmark) → Memᴰ b bs → text_le b.expires_at now ≡ false → Memᴰ b after
    pub bounded : length after ≤ 32768

  of_session-IsFor :
      (b : Bookmark) → earliest (of_session f.session.session_id) bs ≡ some b → Memᴰ b bs × IsFor b
  of_session-IsFor b q =
      let (m, own) = earliest-member (of_session f.session.session_id) bs b q in
      (m, inl ((eq_iff b.session_id f.session.session_id).0 own))

  is_equivalent-IsFor :
      (b : Bookmark) → earliest (is_equivalent now r policy f) bs ≡ some b → Memᴰ b bs × IsFor b
  unfolding is_equivalent
  is_equivalent-IsFor b q =
      let (m, alike) = earliest-member (is_equivalent now r policy f) bs b q in
      (
        m,
        inr (
          ground arith,
          ground (arith, eq_iff b.filters f.filters),
          ground (arith, eq_iff b.identity_digest r.identity_digest),
          ground (arith, eq_iff b.policy_ref policy),
          ground arith,
        ),
      )

  added-IsIssued :
      HaveOwnTokens bs
      → added r (new_bookmark token now expiry r policy f) (cleanup now bs) ≡ ok (bs', t)
      → IsIssued bs'
  unfolding has_capacity new_bookmark
  added-IsIssued own h = elim (Bool-cases (has_capacity r (cleanup now bs))) [
    | inr full ↦ absurd (let h' = rw full at h in ground arith)
    | inl room ↦
        let h' = rw room at h in
        let same : new_bookmark token now expiry r policy f ∷ cleanup now bs ≡ bs' = ground arith in
        subst IsIssued same (record {
          stands =
              (new_bookmark token now expiry r policy f, Memᴰ.head refl, ground arith, inl refl);
          kept = λ b m live. Memᴰ.tail (cleanup_keeps now bs own b m live);
          bounded = ground arith;
        })
  ]

  reused-IsIssued :
      (old : Option Bookmark) (new : Outcome BookmarkRejected (List Bookmark × String))
      → ((b : Bookmark) → old ≡ some b → Memᴰ b bs × IsFor b)
      → length bs ≤ 32768
      → (new ≡ ok (bs', t) → IsIssued bs')
      → reused old bs new ≡ ok (bs', t)
      → IsIssued bs'
  reused-IsIssued none new there few k h = k h
  reused-IsIssued (some b) new there few k h =
      let same : bs ≡ bs' = ground arith in
      let own : b.token ≡ t = ground arith in
      let (m, fits) = there b refl in
      subst IsIssued same
        (record { stands = (b, m, own, fits); kept = λ x n live. n; bounded = few })

-- A bookmark that is issued, where the tokens are keys and at most 32768 bookmarks are there: the
-- token that is returned is the one of a bookmark that is left, which is of the session, or of the
-- same position, filters, reader and policy and has not expired; every bookmark that has not expired
-- stays, and at most 32768 are there again.
pub issue-IsIssued :
    (digest : Session → String) (token now expiry : String) (r : Reader) (policy : String)
    (f : Scoped) (sessions : List Session) (ms : List PageMark) (bs bs' : List Bookmark)
    (t : String)
    → HaveOwnTokens bs
    → length bs ≤ 32768
    → issue digest token now expiry r policy f sessions ms bs ≡ ok (bs', t)
    → IsIssued token now expiry r policy f bs bs' t bs'
unfolding issue
issue-IsIssued digest token now expiry r policy f sessions ms bs bs' t own few h =
    let u : is_unchanged digest f (find_session f.session.session_id sessions) ≡ true =
      ground arith in
    let c : is_covered f.session ms ≡ true = ground arith in
    let e : text_le f.session.expires_at now ≡ false = ground arith in
    let h1 = rw (u, c, e) at h in
    let last = added r (new_bookmark token now expiry r policy f) (cleanup now bs) in
    reused-IsIssued token now expiry r policy f bs bs' t
      (earliest (of_session f.session.session_id) bs)
      (reused (earliest (is_equivalent now r policy f) bs) bs last)
      (of_session-IsFor token now expiry r policy f bs bs' t) few
      (reused-IsIssued token now expiry r policy f bs bs' t
        (earliest (is_equivalent now r policy f) bs) last
        (is_equivalent-IsFor token now expiry r policy f bs bs' t) few
        (added-IsIssued token now expiry r policy f bs bs' t own))
      h1
