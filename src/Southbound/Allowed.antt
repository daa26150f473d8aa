-- ===== src/Southbound/Allowed.antt =====
-- The addresses of a destination that tools/southbound_security.py lets through.
use mathlib.Core.Path.{subst}
use ouf_api_gateway.Base.{
  ℕ, Bool, true, false, not, ◌&&◌, ◌||◌, Option, none, some, String, List, [], ◌∷◌, ◌==◌, ◌≠◌,
  nat_eq, string_eq, Outcome, ok, raised, contains, All, ◌≡◌, refl, ap, ok-injective, ◌⊎◌, inl, inr,
  ◌∙◌, arith, eq_iff, Bool-cases,
}
use ouf_api_gateway.Base.Sorted.{contains-sort_by}
use ouf_api_gateway.Base.Text.{sort_by}
use ouf_api_gateway.Southbound.{
  SouthboundError, RegisteredEndpoint, ParsedUrl, IpAddresses, ◌>>=◌, deny, parsed, nonblank,
  is_empty, is_host, distinct, own_text, is_unregistered, forbidden, networks_of, in_some,
  check_address, check_addresses, check_answers, validate_destination,
}

then-ok :
    {A B : Type 0} (m : Outcome SouthboundError A) (f : A → Outcome SouthboundError B) {b : B}
    → (m >>= f) ≡ ok b
    → (a : A) × (m ≡ ok a) × (f a ≡ ok b)
unfolding ◌>>=◌
then-ok (ok a) f h = (a, refl, h)
then-ok (raised e) f h = absurd (ground arith)

deny-ok : (b : Bool) (message : String) (u : Unit {0}) → deny b message ≡ ok u → b ≡ false
unfolding deny
deny-ok true message u h = absurd (ground arith)
deny-ok false message u h = refl

parsed-ok : {A : Type 0} (o : Option A) (a : A) → parsed o ≡ ok a → o ≡ some a
unfolding parsed
parsed-ok none a h = absurd (ground arith)
parsed-ok (some b) a h = ap some (ok-injective h)

contains-distinct : (xs : List String) (s : String) → contains (distinct xs) s ≡ contains xs s
unfolding distinct
contains-distinct [] s = refl
contains-distinct (x ∷ xs) s = elim (Bool-cases (contains xs x)) [
  | inl again ↦ rw again (
      contains-distinct xs s ∙ elim (Bool-cases (s == x)) [
        | inl same ↦ let q = (eq_iff s x).0 same in rw (q, again) (ground arith)
        | inr other ↦ rw other refl
      ])
  | inr new ↦ rw new (ap (λ b. s == x || b) (contains-distinct xs s))
]

-- The URL that was checked: https, without credentials and fragment, of the registered host.
abbrev pub IsRegistered : ParsedUrl → RegisteredEndpoint → Type 0
IsRegistered url registered =
    (url.scheme ≡ "https")
    × (url.scheme ≡ registered.scheme)
    × (is_host url.hostname registered.host ≡ true)
    × (nonblank url.username ≡ false)
    × (nonblank url.password ≡ false)
    × (url.fragment ≡ "")

registered-ok :
    (url : ParsedUrl) (registered : RegisteredEndpoint)
    → is_unregistered url registered ≡ ok false
    → (url.scheme ≡ registered.scheme) × (is_host url.hostname registered.host ≡ true)
unfolding is_unregistered
registered-ok url registered h =
    elim (Bool-cases
      ((url.scheme ≠ registered.scheme) || not (is_host url.hostname registered.host))) [
        | inl other ↦ absurd (let k = rw other at h in ground arith)
        | inr same ↦ ((eq_iff url.scheme registered.scheme).0 (ground arith), ground arith)
      ]

module _ {Address Network : Type 0} (ips : IpAddresses Address Network) where
  -- An address that may be called: of no forbidden class, and in a registered network; where no
  -- network is registered, a public one.
  abbrev pub IsAllowed : List Network → String → Type 0
  IsAllowed networks raw =
      (ip : Address) × (ips.ip_address raw ≡ some ip)
      × (forbidden ips ip ≡ false)
      × (((in_some ips networks ip) ≡ true)
          ⊎ ((is_empty networks ≡ true) × (ips.is_private ip ≡ false)))

  check_address-IsAllowed :
      (networks : List Network) (raw : String) (u : Unit {0})
      → check_address ips networks raw ≡ ok u
      → IsAllowed networks raw
  unfolding check_address
  check_address-IsAllowed networks raw u h =
      let address = then-ok (parsed (ips.ip_address raw)) _ h in
      let ip = address.0 in
      let class = then-ok (deny (forbidden ips ip) _) _ address.2 in
      let private = then-ok (deny (ips.is_private ip && is_empty networks) _) _ class.2 in
      (
        ip,
        parsed-ok _ ip address.1,
        deny-ok _ _ class.0 class.1,
        allowed (ips.is_private ip) (is_empty networks) (in_some ips networks ip)
            (deny-ok _ _ private.0 private.1) (deny-ok _ _ u private.2),
      )
    where
      allowed :
          (p e i : Bool)
          → (p && e) ≡ false
          → (not e && not i) ≡ false
          → (i ≡ true) ⊎ ((e ≡ true) × (p ≡ false))
      allowed p e true h k = inl refl
      allowed p false false h k = absurd (ground arith)
      allowed false true false h k = inr (refl, refl)
      allowed true true false h k = absurd (ground arith)

  check_addresses-AllAllowed :
      (networks : List Network) (raws : List String) (u : Unit {0})
      → check_addresses ips networks raws ≡ ok u
      → All (IsAllowed networks) raws
  unfolding check_addresses
  check_addresses-AllAllowed networks [] u h = tt
  check_addresses-AllAllowed networks (raw ∷ raws) u h =
      let one = then-ok (check_address ips networks raw) _ h in
      (
        check_address-IsAllowed networks raw one.0 one.1,
        check_addresses-AllAllowed networks raws u one.2,
      )

  -- What `answered` and `addresses` have in common where the destination is allowed.
  abbrev pub IsChecked : RegisteredEndpoint → Option (List String) → List String → Type 0
  IsChecked registered answered addresses =
      (answers : List String) × (answered ≡ some answers)
      × (networks : List Network) × (networks_of ips registered.allowed_cidrs ≡ ok networks)
      × (is_empty addresses ≡ false)
      × ((s : String) → contains addresses s ≡ contains answers s)
      × All (IsAllowed networks) addresses

  check_answers-IsChecked :
      (registered : RegisteredEndpoint) (answered : Option (List String)) (addresses : List String)
      → check_answers ips registered answered ≡ ok addresses
      → IsChecked registered answered addresses
  unfolding check_answers
  check_answers-IsChecked registered none addresses h = absurd (ground arith)
  check_answers-IsChecked registered (some answers) addresses h =
      let found = sort_by own_text (distinct answers) in
      let some_found = then-ok (deny (is_empty found) _) _ h in
      let networks = then-ok (networks_of ips registered.allowed_cidrs) _ some_found.2 in
      let all = then-ok (check_addresses ips networks.0 found) _ networks.2 in
      subst (IsChecked registered (some answers)) (ok-injective all.2) (
        answers,
        refl,
        networks.0,
        networks.1,
        deny-ok _ _ some_found.0 some_found.1,
        (λ s. contains-sort_by s (distinct answers) ∙ contains-distinct answers s),
        check_addresses-AllAllowed networks.0 found all.0 all.1,
      )

  module _ (urlparse : String → Option ParsedUrl)
      (resolver : Option String → ℕ → Option (List String)) where
    -- `validate_destination` returns only where the URL is https, without credentials and
    -- fragment, with the scheme and the host of the registration; it returns exactly the
    -- addresses that the resolver answered for that host, at least one, and each of them is of no
    -- forbidden class and in a registered network, or public where no network is registered.
    pub validate_destination-AllAllowed :
        (url : String) (registered : RegisteredEndpoint) (addresses : List String)
        → validate_destination ips urlparse resolver url registered ≡ ok addresses
        → (parts : ParsedUrl) × (urlparse url ≡ some parts)
          × IsRegistered parts registered
          × IsChecked registered (resolver parts.hostname registered.port) addresses
    unfolding validate_destination
    validate_destination-AllAllowed url registered addresses h =
        let parts = then-ok (parsed (urlparse url)) _ h in
        let p = parts.0 in
        let safe =
          then-ok (deny (nonblank p.username || nonblank p.password || (p.fragment ≠ "")) _) _
            parts.2 in
        let known = then-ok (is_unregistered p registered) _ safe.2 in
        let same = then-ok (deny known.0 _) _ known.2 in
        let secure = then-ok (deny (p.scheme ≠ "https") _) _ same.2 in
        let unsafe = deny-ok _ _ safe.0 safe.1 in
        let own = registered-ok p registered (known.1 ∙ ap ok (deny-ok known.0 _ same.0 same.1)) in
        let tls = deny-ok (p.scheme ≠ "https") _ secure.0 secure.1 in
        (
          p,
          parsed-ok _ p parts.1,
          (
            (eq_iff p.scheme "https").0 (ground arith),
            own.0,
            own.1,
            ground arith,
            ground arith,
            (eq_iff p.fragment "").0 (ground arith),
          ),
          check_answers-IsChecked registered _ addresses secure.2,
        )
