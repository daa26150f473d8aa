-- ===== src/Deploy/Snapshots.antt =====
-- The snapshot that a script takes before its first write.
use mathlib.Core.Path.{subst}
use ouf_api_gateway.Base.{
  eq_iff, nat_eq, if◌then◌else◌, ok-injective, contains, Bool, true, false, Option, none, some,
  String, List, [], ◌∷◌, ◌==◌, string_eq, ◌≡◌, refl, sym, Outcome, ok, raised, Bool-cases, inl, inr,
  ◌∙◌, arith, All, ◌||◌, ap,
}
use ouf_api_gateway.Base.Sorted.{contains-sort_by}
use ouf_api_gateway.Base.Dict.{Dict}
use ouf_api_gateway.Base.Text.{sort_by}
use ouf_api_gateway.Document.{Value, null}
use ouf_api_gateway.Deploy.{
  continued, DeployError, get, Reply, Admin, Call, ◌>>=◌, lift, check, replied, route_value,
}
use ouf_api_gateway.Deploy.Routes.{send, save, own_id, snapshot_one, snapshot_each, snapshot}
use ouf_api_gateway.Deploy.Table.{IsAdmin}
use ouf_api_gateway.Deploy.Keeps.{snapshot_one-Keeps}
use ouf_api_gateway.Deploy.Restored.{IsOriginal, has_entry}

pub reply_of : {W : Type 0} (x : Option Reply × W) (r : Reply) → (replied x).0 ≡ ok r → x.0 ≡ some r
reply_of (none, w) r h = absurd (ground arith)
reply_of (some s, w) r h = ap some (ok-injective h)

pub known_code :
    {W : Type 0} (b : Bool) (e : DeployError) (w : W) → (check b e w).0 ≡ ok tt → b ≡ true
unfolding check
known_code true e w h = refl
known_code false e w h = absurd (ground arith)

pub lifted-ok :
    {W A : Type 0} (r : Outcome DeployError A) (w : W) {a : A} → (lift r w).0 ≡ ok a → r ≡ ok a
unfolding lift
lifted-ok r w h = h

continued-ok :
    {W A B : Type 0} (x : Outcome DeployError A × W) (f : A → Call W B) {b : B}
    → (continued x f).0 ≡ ok b
    → (a : A) × (x.0 ≡ ok a) × ((f a x.1).0 ≡ ok b)
unfolding continued
continued-ok (ok a, w) f h = (a, refl, h)
continued-ok (raised e, w) f h = absurd (ground arith)

continued-runs :
    {W A B : Type 0} (x : Outcome DeployError A × W) (f : A → Call W B) (a : A)
    → x.0 ≡ ok a
    → continued x f ≡ f a x.1
unfolding continued
continued-runs (ok b, w) f a h = ap (λ c. f c w) (ok-injective h)
continued-runs (raised e, w) f a h = absurd (ground arith)

pub bind-runs :
    {W A B : Type 0} (m : Call W A) (f : A → Call W B) (w : W) (a : A)
    → (m w).0 ≡ ok a
    → (m >>= f) w ≡ f a (m w).1
unfolding ◌>>=◌
bind-runs m f w a h = continued-runs (m w) f a h

continued-raises :
    {W A B : Type 0} (x : Outcome DeployError A × W) (f : A → Call W B) (e : DeployError)
    → x.0 ≡ raised e
    → continued x f ≡ (raised e, x.1)
unfolding continued
continued-raises (ok b, w) f e h = absurd (ground arith)
continued-raises (raised e', w) f e h = let q : e' ≡ e = ground arith in ap (λ k. (raised k, w)) q

pub bind-raises :
    {W A B : Type 0} (m : Call W A) (f : A → Call W B) (w : W) (e : DeployError)
    → (m w).0 ≡ raised e
    → (m >>= f) w ≡ (raised e, (m w).1)
unfolding ◌>>=◌
bind-raises m f w e h = continued-raises (m w) f e h

-- A chain that returns has run its first call and then the rest.
pub bind-ok :
    {W A B : Type 0} (m : Call W A) (f : A → Call W B) (w : W) {b : B}
    → ((m >>= f) w).0 ≡ ok b
    → (a : A) × ((m w).0 ≡ ok a) × ((f a (m w).1).0 ≡ ok b)
unfolding ◌>>=◌
bind-ok m f w h = continued-ok (m w) f h

pub has_entry-cons :
    (id j : String) (old : Value) (d : Dict Value) (b : Bool)
    → has_entry j d ≡ b
    → has_entry j ((id, old) ∷ d) ≡ (j == id || b)
has_entry-cons id j old d b h = ground (arith, eq_iff id j, eq_iff j id)

module _ {W : Type 0} (admin : Admin W) {table : W → String → Option Value} {filled : Value → Value}
    (laws : IsAdmin admin table filled) (before : W) where
  original :
      (id : String) (w : W) (r : Reply) (old : Value)
      → table w id ≡ table before id
      → (admin.route get id null w).0 ≡ some r
      → (r.code == 200 || r.code == 404) ≡ true
      → (if r.code == 200 then route_value r.body else ok null) ≡ ok old
      → IsOriginal admin laws before (id, old)
  original id w r old same q known h = elim (Bool-cases (r.code == 200)) [
    | inl found ↦
        let h' : route_value r.body ≡ ok old = let e = rw found at h in e in
        inl (sym same ∙ laws.get_found id null w r old q (ground arith) h')
    | inr absent ↦
        let h' : ok null ≡ ok old = let e = rw absent at h in e in
        inr ((sym same ∙ laws.get_missing id null w r q (ground arith)), sym (ok-injective h'))
  ]

  pub snapshot_one-IsOriginal :
      (id : String) (w : W) (old : Value)
      → table w id ≡ table before id
      → (snapshot_one admin id w).0 ≡ ok old
      → IsOriginal admin laws before (id, old)
  unfolding snapshot_one send
  snapshot_one-IsOriginal id w old same h =
      let sent = bind-ok (send admin get id null) _ w h in
      let known = bind-ok (check _ _) _ _ sent.2 in
      original id w sent.0 old same (reply_of _ sent.0 sent.1) (known_code _ _ _ known.1)
        (lifted-ok _ _ known.2)

  pub snapshot_each-IsOriginal :
      (ids : List String) (w : W) (d : Dict Value)
      → ((j : String) → table w j ≡ table before j)
      → (snapshot_each admin ids w).0 ≡ ok d
      → All (IsOriginal admin laws before) d × ((j : String) → has_entry j d ≡ contains ids j)
  unfolding snapshot_each
  snapshot_each-IsOriginal [] w d same h =
      let q : [] ≡ d = ok-injective (lifted-ok _ w h) in
      subst (λ d'. All (IsOriginal admin laws before) d' × ((j : String) → has_entry j d' ≡ false))
        q (tt, λ j. refl)
  snapshot_each-IsOriginal (id ∷ ids) w d same h =
      let old = bind-ok (snapshot_one admin id) _ w h in
      let rest = bind-ok (snapshot_each admin ids) _ (snapshot_one admin id w).1 old.2 in
      let tail =
        snapshot_each-IsOriginal ids (snapshot_one admin id w).1 rest.0
          (λ j. (snapshot_one-Keeps admin laws (λ _. Unit) id).at w j tt ∙ same j) rest.1 in
      let q : (id, old.0) ∷ rest.0 ≡ d = ok-injective (lifted-ok _ _ rest.2) in
      subst
        (λ d'.
          All (IsOriginal admin laws before) d'
          × ((j : String) → has_entry j d' ≡ contains (id ∷ ids) j))
        q
        (
          (snapshot_one-IsOriginal id w old.0 (same id) old.1, tail.0),
          λ j. has_entry-cons id j old.0 rest.0 (contains ids j) (tail.1 j),
        )

  -- A snapshot that returns has an entry for each id, as the table is, and for no other.
  pub snapshot-IsOriginal :
      (ids : List String) (w : W) (d : Dict Value)
      → ((j : String) → table w j ≡ table before j)
      → (snapshot admin ids w).0 ≡ ok d
      → All (IsOriginal admin laws before) d × ((j : String) → has_entry j d ≡ contains ids j)
  unfolding snapshot
  snapshot-IsOriginal ids w d same h =
      let taken = bind-ok (snapshot_each admin (sort_by own_id ids)) _ w h in
      let kept = bind-ok (save admin taken.0) _ _ taken.2 in
      let q : taken.0 ≡ d = ok-injective (lifted-ok _ _ kept.2) in
      let each = snapshot_each-IsOriginal (sort_by own_id ids) w taken.0 same taken.1 in
      subst
        (λ d'.
          All (IsOriginal admin laws before) d' × ((j : String) → has_entry j d' ≡ contains ids j))
        q (each.0, λ j. each.1 j ∙ contains-sort_by j ids)
