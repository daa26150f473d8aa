-- ===== src/Deploy/Tests.antt =====
-- An Admin API in memory that refuses to write one id, and runs of the scripts on it.
use mathlib.Core.Path.{subst, subst₂}
use mathlib.Core.Option.{some-injective}
use ouf_api_gateway.Base.{
  ℕ, true, false, Option, none, some, String, List, [], ◌∷◌, ◌==◌, string_eq, ◌≡◌, refl, ap,
  ok-injective, Bool-cases, inl, inr, beq_refl, ◌||◌, ok, raised, if◌then◌else◌, arith, eq_iff,
  contains, nat_eq,
}
use ouf_api_gateway.Base.Dict.{Dict, insert, lookup}
use ouf_api_gateway.Document.{
  Value, null, text, fields, array, object, find, truthy, text_of, or_null, without, same_value,
}
use ouf_api_gateway.Deploy.{
  Method, get, put, delete, Reply, Admin, runtime_error, ◌>>=◌, lift, continued, check, covers,
  route_value, is_written,
}
use ouf_api_gateway.Deploy.Routes.{
  apply, snapshot, restore, unprobed, validate_each, validate_route, check_governed, check_plugins,
  snapshot_each, snapshot_one, send, save, probe, guarded, install, write_routes, write_route,
  written_as, confirm, probe_path, probe_routes, restore_each,
}
use ouf_api_gateway.Document.Names.{is_name, all_chars, is_alphanumeric}
use ouf_api_gateway.Base.Text.{drop_last, ends_with, insert_sorted, sort_by}
use ouf_api_gateway.Deploy.Table.{IsAdmin}
use ouf_api_gateway.Deploy.Atomic.{IsAtomic, apply-IsAtomic, restore-snapshot}
use ouf_api_gateway.Deploy.Validated.{HaveOwnIds}
use ouf_api_gateway.Deploy.Status.{apply_routes, attempt_all, attempt, entries, read_previous}
use ouf_api_gateway.Deploy.Status.Atomic.{apply_routes-IsAtomic}

record World : Type 0 where
  rows : String → Option String
  broken : String

-- The governed route of an id; in this table a route is known by the id that it names.
abbrev template : String → Value
template id = object (
    ("id", text id)
    ∷ ("labels", object (("ouf-managed", text "true") ∷ ("ouf-exposure", text "internal") ∷ []))
    ∷ ("uri", text "/api/internal")
    ∷ ("methods", array (text "GET" ∷ []))
    ∷ (
      "plugins",
      object (
          ("openid-connect", object [])
          ∷ ("serverless-pre-function", object [])
          ∷ ("serverless-post-function", object [])
          ∷ ("request-id", object [])
          ∷ ("limit-count", object [])
          ∷ []),
    )
    ∷ [])

abbrev or_blank : Option String → String
or_blank none = ""
or_blank (some s) = s

abbrev name_of : Value → String
name_of (fields fs) = or_blank (text_of (or_null (find "id" fs)))
name_of other = ""

abbrev filled : Value → Value
filled v = template (name_of v)

abbrev stored : Option String → Option Value
stored none = none
stored (some s) = some (template s)

abbrev table : World → String → Option Value
table w j = stored (w.rows j)

abbrev read_reply : Option String → Reply
read_reply none = record { code = 404; body = null }
read_reply (some s) = record { code = 200; body = template s }

abbrev answered : ℕ → Reply
answered c = record { code = c; body = null }

abbrev route : Method → String → Value → World → Option Reply × World
route get id v w = (some (read_reply (w.rows id)), w)
route put id v w = if id == w.broken then (some (answered 500), w) else (
  some (answered 201),
  record w { rows = λ j. if id == j then some (name_of v) else w.rows j },
)
route delete id v w =
    (some (answered 204), record w { rows = λ j. if id == j then none else w.rows j })

abbrev admin : Admin World
admin = record { route = route; probe = λ path method v w. (some 401, w); save = λ d w. (true, w) }

found :
    (o : Option String) (r : Reply) (v : Value)
    → read_reply o ≡ r
    → r.code ≡ 200
    → route_value r.body ≡ ok v
    → stored o ≡ some v
unfolding route_value without find
found o r v q =
    subst (λ r. r.code ≡ 200 → route_value r.body ≡ ok v → stored o ≡ some v) q (at_reply o)
  where
    at_reply :
        (o : Option String)
        → (read_reply o).code ≡ 200
        → route_value (read_reply o).body ≡ ok v
        → stored o ≡ some v
    at_reply none c h = absurd (omega (arith, c))
    at_reply (some s) c h = ap some (ok-injective h)

missing : (o : Option String) (r : Reply) → read_reply o ≡ r → r.code ≡ 404 → stored o ≡ none
missing none r q c = refl
missing (some s) r q c =
    absurd (let e : 200 ≡ r.code = ap (λ (x : Reply). x.code) q in omega (arith, e, c))

kept :
    (m : Method) (id : String) (v : Value) (w : World) (j : String)
    → (id == j) ≡ false
    → table (route m id v w).1 j ≡ table w j
kept get id v w j h = refl
kept put id v w j h = elim (Bool-cases (id == w.broken)) [
  | inl refused ↦ rw refused refl
  | inr other ↦ rw (other, h) refl
]
kept delete id v w j h = rw h refl

written :
    (id : String) (v : Value) (w : World) (r : Reply)
    → (route put id v w).0 ≡ some r
    → is_written r.code ≡ true
    → table (route put id v w).1 id ≡ some (filled v)
written id v w r q h = elim (Bool-cases (id == w.broken)) [
  | inl refused ↦ absurd (
      let q' : answered 500 ≡ r = some-injective _ _ (let e = rw refused at q in e) in
      let c : 500 ≡ r.code = ap (λ (x : Reply). x.code) q' in ground arith)
  | inr other ↦ rw (other, beq_refl id) refl
]

put_codes :
    (id : String) (v : Value) (w : World) (r : Reply)
    → (route put id v w).0 ≡ some r
    → (r.code == 204 || r.code == 404) ≡ false
put_codes id v w r q = elim (Bool-cases (id == w.broken)) [
  | inl refused ↦
      let q' : answered 500 ≡ r = some-injective _ _ (let e = rw refused at q in e) in
      let c : 500 ≡ r.code = ap (λ (x : Reply). x.code) q' in ground arith
  | inr other ↦
      let q' : answered 201 ≡ r = some-injective _ _ (let e = rw other at q in e) in
      let c : 201 ≡ r.code = ap (λ (x : Reply). x.code) q' in ground arith
]

full : (o : Option String) (v : Value) → stored o ≡ some v → truthy v ≡ true
full none v q = absurd (ground arith)
full (some s) v q =
    let q' : template s ≡ v = some-injective _ _ q in subst (λ x. truthy x ≡ true) q' refl

filled_already : (o : Option String) (v : Value) → stored o ≡ some v → filled v ≡ v
unfolding find
filled_already none v q = absurd (ground arith)
filled_already (some s) v q =
    let q' : template s ≡ v = some-injective _ _ q in subst (λ x. filled x ≡ x) q' refl

laws : IsAdmin admin table filled
laws = record {
  get_keeps = λ id v w j. refl;
  get_found = λ id v w r f q c h. found (w.rows id) r f (some-injective _ _ q) c h;
  get_missing = λ id v w r q c. missing (w.rows id) r (some-injective _ _ q) c;
  other_keeps = kept;
  put_stores = written;
  put_answers = put_codes;
  delete_removes = λ id v w r q c. rw (beq_refl id) refl;
  delete_answers = λ id v w r q.
      let q' : answered 204 ≡ r = some-injective _ _ q in
      let c : 204 ≡ r.code = ap (λ (x : Reply). x.code) q' in ground arith;
  stored = λ w id v q. full (w.rows id) v q;
  stored_filled = λ w id v q. filled_already (w.rows id) v q;
  probe_keeps = λ path method v w j. refl;
  save_keeps = λ d w j. refl;
}

abbrev routes : List Value
routes = template "a" ∷ template "b" ∷ []

abbrev empty_rows : String → Option String
empty_rows j = none

-- The second write is refused.
abbrev half_broken : World
half_broken = record { rows = empty_rows; broken = "b" }

-- One of the routes was there before.
abbrev all_well : World
all_well = record { rows = λ j. if j == "a" then some "a" else none; broken = "" }

apply_refused : (apply admin unprobed routes half_broken).0 ≡ raised (runtime_error "write HTTP")
unfolding apply ◌>>=◌ lift continued check validate_each validate_route check_governed check_plugins
    find is_name all_chars is_alphanumeric snapshot snapshot_each snapshot_one send save probe
    guarded install write_routes write_route written_as confirm route_value covers same_value
    without drop_last ends_with insert_sorted sort_by probe_path probe_routes restore restore_each
apply_refused = refl

apply_runs : (apply admin unprobed routes all_well).0 ≡ ok tt
unfolding apply ◌>>=◌ lift continued check validate_each validate_route check_governed check_plugins
    find is_name all_chars is_alphanumeric snapshot snapshot_each snapshot_one send save probe
    guarded install write_routes write_route written_as confirm route_value covers same_value
    without drop_last ends_with insert_sorted sort_by probe_path probe_routes restore restore_each
apply_runs = refl

apply-IsAtomic_example :
    IsAtomic admin laws routes half_broken (apply admin unprobed routes half_broken)
apply-IsAtomic_example = apply-IsAtomic admin laws unprobed routes half_broken

apply_routes_refused :
    (apply_routes admin null routes half_broken).0 ≡ raised (runtime_error "write HTTP")
unfolding apply_routes attempt_all attempt entries read_previous insert lookup ◌>>=◌ lift continued
    check find snapshot_one send save written_as confirm route_value covers same_value without
    restore_each
apply_routes_refused = refl

own_ids : HaveOwnIds routes
unfolding find
own_ids = (
  λ id q. (
    λ k q'.
        let a : "a" ≡ id = ok-injective q in
        let b : "b" ≡ k = ok-injective q' in subst₂ (λ k id. (k == id) ≡ false) b a refl,
    tt,
  ),
  (λ id q. tt, tt),
)

apply_routes-IsAtomic_example :
    IsAtomic admin laws routes half_broken (apply_routes admin null routes half_broken)
apply_routes-IsAtomic_example = apply_routes-IsAtomic admin laws null routes half_broken own_ids

-- Both ids were read, and then the second one was written.
abbrev changed : World
changed = record { rows = λ j. if j == "b" then some "b" else none; broken = "" }

abbrev emptied : Dict Value
emptied = ("a", null) ∷ ("b", null) ∷ []

snapshot_runs : (snapshot admin ("b" ∷ "a" ∷ []) half_broken).0 ≡ ok emptied
unfolding snapshot snapshot_each snapshot_one send save ◌>>=◌ lift continued check sort_by
    insert_sorted find route_value without
snapshot_runs = refl

restore_runs : (restore admin emptied changed).0 ≡ ok tt
unfolding restore restore_each sort_by insert_sorted
restore_runs = refl

outside : (j : String) → contains ("b" ∷ "a" ∷ []) j ≡ false → table changed j ≡ table half_broken j
outside j h = ground (arith, eq_iff j "b")

restore-snapshot_example : table (restore admin emptied changed).1 "b" ≡ table half_broken "b"
restore-snapshot_example =
    restore-snapshot admin laws ("b" ∷ "a" ∷ []) half_broken changed emptied snapshot_runs outside
      restore_runs "b"
