-- ===== src/Deploy/Installed.antt =====
-- The two loops of `apply` of ops/apisix/deploy_internal_m2m_routes.py, where they return.
use mathlib.Core.Path.{subst}
use mathlib.Core.Option.{some-injective}
use ouf_api_gateway.Base.{
  nat_eq, Bool, true, false, Option, none, some, String, List, [], ◌∷◌, ◌==◌, string_eq, ◌≡◌, refl,
  sym, ap, ok, ok-injective, Bool-cases, inl, inr, ◌∙◌, arith, All,
}
use ouf_api_gateway.Document.{
  Value, Fields, end, entry, fields, text, text_of, null, find, same_value-text, or_null, flag,
  integer, items,
}
use ouf_api_gateway.Deploy.{
  get, put, Reply, Admin, lift, check, matches, covers, read_route, route_value, DeployError,
}
use ouf_api_gateway.Deploy.Routes.{
  send, as_text, text_at, confirm, written_as, write_route, write_routes, install,
}
use ouf_api_gateway.Deploy.Table.{IsAdmin}
use ouf_api_gateway.Deploy.Validated.{HaveOwnIds}
use ouf_api_gateway.Deploy.Keeps.{write_routes-Keeps, probe_routes-Keeps, confirm-Keeps}
use ouf_api_gateway.Deploy.Snapshots.{bind-ok, bind-runs, known_code, lifted-ok, reply_of}

-- The route is stored under its id, with each configured field unchanged.
abbrev pub IsInstalled : (String → Option Value) → Value → Type 0
IsInstalled stored route =
    (id : String) × (actual : Value) × (text_at "id" route ≡ ok id)
    × (stored id ≡ some actual)
    × (matches route actual ≡ true)

covers-text : (k s : String) (fs : Fields) → find k fs ≡ some (text s) → covers fs end ≡ false
unfolding covers find
covers-text k s end h = absurd (ground arith)
covers-text k s (entry j v rest) h = elim (Bool-cases (j == k)) [
  | inl same ↦
      let q : v ≡ text s = some-injective v (text s) (let h' = rw same at h in h') in
      ground (arith, same_value-text v s q)
  | inr other ↦ let h' = rw other at h in ground (arith, covers-text k s rest h')
]

text-found :
    (o : Option Value) (s : String) → as_text (text_of (or_null o)) ≡ ok s → o ≡ some (text s)
text-found none s h = absurd (ground arith)
text-found (some (text t)) s h = ap (λ x. some (text x)) (ok-injective h)
text-found (some null) s h = absurd (ground arith)
text-found (some (flag b)) s h = absurd (ground arith)
text-found (some (integer n)) s h = absurd (ground arith)
text-found (some (items xs)) s h = absurd (ground arith)
text-found (some (fields fs)) s h = absurd (ground arith)

-- A read that finds no route satisfies no readback.
matches-empty :
    (route : Value) (id : String) → text_at "id" route ≡ ok id → matches route (fields end) ≡ false
matches-empty (fields fs) id h = covers-text "id" id fs (text-found (find "id" fs) id h)
matches-empty null id h = refl
matches-empty (flag b) id h = refl
matches-empty (integer n) id h = refl
matches-empty (text s) id h = refl
matches-empty (items xs) id h = refl

read_back :
    (route : Value) (id : String) (r : Reply) (actual : Value)
    → text_at "id" route ≡ ok id
    → read_route r ≡ ok actual
    → matches route actual ≡ true
    → (r.code ≡ 200) × (route_value r.body ≡ ok actual)
read_back route id r actual named h same = elim (Bool-cases (r.code == 200)) [
  | inl found ↦ (ground arith, let h' = rw found at h in h')
  | inr absent ↦
      let q : fields end ≡ actual = ok-injective (let h' = rw absent at h in h') in
      let same' : matches route (fields end) ≡ true =
        subst (λ a. matches route a ≡ true) (sym q) same in
      absurd (ground (arith, matches-empty route id named))
]

check-world : {W : Type 0} (b : Bool) (e : DeployError) (w : W) → (check b e w).1 ≡ w
unfolding check
check-world true e w = refl
check-world false e w = refl

pub IsInstalled-same :
    (stored stored' : String → Option Value) (route : Value)
    → ((id : String) → text_at "id" route ≡ ok id → stored' id ≡ stored id)
    → IsInstalled stored route
    → IsInstalled stored' route
IsInstalled-same stored stored' route same (id, actual, named, q, m) =
    (id, actual, named, same id named ∙ q, m)

All-IsInstalled-same :
    (stored stored' : String → Option Value) (routes : List Value)
    → ((id : String) → stored' id ≡ stored id)
    → All (IsInstalled stored) routes
    → All (IsInstalled stored') routes
All-IsInstalled-same stored stored' [] same h = tt
All-IsInstalled-same stored stored' (r ∷ rs) same (h, hs) = (
  IsInstalled-same stored stored' r (λ id _. same id) h,
  All-IsInstalled-same stored stored' rs same hs,
)

module _ {W : Type 0} (admin : Admin W) {table : W → String → Option Value} {filled : Value → Value}
    (laws : IsAdmin admin table filled) where
  confirm-IsInstalled :
      (route : Value) (id : String) (w : W)
      → text_at "id" route ≡ ok id
      → (confirm admin route id w).0 ≡ ok tt
      → IsInstalled (table (confirm admin route id w).1) route
  unfolding confirm send
  confirm-IsInstalled route id w named h =
      let again = bind-ok (send admin get id null) _ w h in
      let actual = bind-ok (lift (read_route again.0)) _ _ again.2 in
      let same = known_code _ _ _ actual.2 in
      let value = lifted-ok _ _ actual.1 in
      let found = read_back route id again.0 actual.0 named value same in
      let sent = reply_of _ again.0 again.1 in
      (
        id,
        actual.0,
        named,
        (confirm-Keeps admin laws (λ _. Unit) route id).at w id tt
            ∙ laws.get_found id null w again.0 actual.0 sent found.0 found.1,
        same,
      )

  pub written_as-IsInstalled :
      (route : Value) (id : String) (w : W)
      → text_at "id" route ≡ ok id
      → (written_as admin route id w).0 ≡ ok tt
      → IsInstalled (table (written_as admin route id w).1) route
  unfolding written_as
  written_as-IsInstalled route id w named h =
      let sent = bind-ok (send admin put id route) _ w h in
      let done = bind-ok (check _ _) _ _ sent.2 in
      let runs =
        bind-runs (send admin put id route) _ w sent.0 sent.1
        ∙ bind-runs (check _ _) _ _ tt done.1 in
      subst (λ x. IsInstalled (table x.1) route) (sym runs)
        (confirm-IsInstalled route id _ named done.2)

  pub write_route-IsInstalled :
      (route : Value) (w : W)
      → (write_route admin route w).0 ≡ ok tt
      → IsInstalled (table (write_route admin route w).1) route
  unfolding write_route
  write_route-IsInstalled route w h =
      let id = bind-ok (lift (text_at "id" route)) _ w h in
      let runs = bind-runs (lift (text_at "id" route)) (written_as admin route) w id.0 id.1 in
      subst (λ x. IsInstalled (table x.1) route) (sym runs)
        (written_as-IsInstalled route id.0 _ (lifted-ok _ _ id.1) id.2)

  pub write_routes-IsInstalled :
      (routes : List Value) (w : W)
      → HaveOwnIds routes
      → (write_routes admin routes w).0 ≡ ok tt
      → All (IsInstalled (table (write_routes admin routes w).1)) routes
  unfolding write_routes
  write_routes-IsInstalled [] w own h = tt
  write_routes-IsInstalled (r ∷ rs) w own h =
      let one = bind-ok (write_route admin r) _ w h in
      let w1 = (write_route admin r w).1 in
      subst (λ x. All (IsInstalled (table x.1)) (r ∷ rs))
        (sym (bind-runs (write_route admin r) _ w tt one.1))
        (
          IsInstalled-same (table w1) _ r
              (λ id named. (write_routes-Keeps admin laws rs).at w1 id (own.0 id named))
              (write_route-IsInstalled r w one.1),
          write_routes-IsInstalled rs w1 own.1 one.2,
        )

  module _ (anonymous_probe : Value → Value) where
    pub install-IsInstalled :
        (routes : List Value) (w : W)
        → HaveOwnIds routes
        → (install admin anonymous_probe routes w).0 ≡ ok tt
        → All (IsInstalled (table (install admin anonymous_probe routes w).1)) routes
    unfolding install
    install-IsInstalled routes w own h =
        let one = bind-ok (write_routes admin routes) _ w h in
        let w1 = (write_routes admin routes w).1 in
        subst (λ x. All (IsInstalled (table x.1)) routes)
          (sym (bind-runs (write_routes admin routes) _ w tt one.1))
          (All-IsInstalled-same (table w1) _ routes
            (λ id. (probe_routes-Keeps admin laws (λ _. Unit) anonymous_probe routes).at w1 id tt)
            (write_routes-IsInstalled routes w own one.1))
