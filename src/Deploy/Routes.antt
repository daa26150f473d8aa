-- ===== src/Deploy/Routes.antt =====
-- ops/apisix/deploy_internal_m2m_routes.py: validation, snapshot, restore and apply.
use Prim.Native.String
use package.text.Mathlib.Text.{starts_with, find?}
use ouf_api_gateway.Base.{
  ℕ, Bool, true, false, not, ◌||◌, Option, none, some, String, List, [], ◌∷◌, ◌==◌, nat_eq,
  string_eq, Outcome, ok, raised, if◌then◌else◌, any, contains,
}
use ouf_api_gateway.Base.Text.{sort_by, ends_with, drop_last}
use ouf_api_gateway.Base.Dict.{Dict}
use ouf_api_gateway.Document.{
  Value, null, flag, integer, text, items, fields, find, or_null, or_empty, is_text, text_of,
  items_of, is_dict, list_of, truthy,
}
use ouf_api_gateway.Document.Names.{is_name}
use ouf_api_gateway.Deploy.{
  Method, get, put, delete, Reply, DeployError, value_error, runtime_error, rollback_incomplete,
  type_error, Admin, Call, ◌>>=◌, lift, check, replied, probed, saved, route_value, read_route,
  matches, is_written, is_restored,
}

-- `v.get(k)`
abbrev pub read : String → Value → Outcome DeployError Value
read k (fields fs) = ok (or_null (find k fs))
read k null = raised type_error
read k (flag b) = raised type_error
read k (integer n) = raised type_error
read k (text s) = raised type_error
read k (items xs) = raised type_error

abbrev pub found : Option Value → Bool
found none = false
found (some v) = true

abbrev pub is_part : Option ℕ → Bool
is_part none = false
is_part (some n) = true

-- `k in v`
abbrev pub has_key : String → Value → Outcome DeployError Bool
has_key k (fields fs) = ok (found (find k fs))
has_key k (items xs) = ok (any (is_text k) (list_of xs))
has_key k (text s) = ok (is_part (find? s k))
has_key k null = raised type_error
has_key k (flag b) = raised type_error
has_key k (integer n) = raised type_error

infixl 5 ◌>>>◌
abbrev pub ◌>>>◌ :
    {A B : Type 0} → Outcome DeployError A → (A → Outcome DeployError B) → Outcome DeployError B
ok a >>> f = f a
raised e >>> f = raised e

abbrev pub refuse : Bool → String → Outcome DeployError (Unit {0})
refuse true e = raised (value_error e)
refuse false e = ok tt

abbrev pub named : Option String → Outcome DeployError String
named none = raised (value_error "invalid route id")
named (some s) = if is_name s then ok s else raised (value_error "invalid route id")

abbrev pub rooted : Option String → Bool
rooted none = false
rooted (some uri) = starts_with uri "/"

abbrev pub is_single : Option (List Value) → Bool
is_single none = false
is_single (some []) = false
is_single (some (m ∷ [])) = true
is_single (some (m ∷ n ∷ ms)) = false

abbrev pub required_plugins : List String
required_plugins =
    "openid-connect" ∷ "serverless-pre-function" ∷ "serverless-post-function" ∷ "request-id"
    ∷ "limit-count" ∷ []

unfoldable pub check_plugins : List String → Value → Outcome DeployError (Unit {0})
check_plugins [] plugins = ok tt
check_plugins (p ∷ ps) plugins = has_key p plugins >>> λ present.
    refuse (not present) (String.◌++◌ "missing required plugin: " p) >>> λ _.
    check_plugins ps plugins

-- The checks of a round of `validate_routes` behind the one of the id.
unfoldable pub check_governed : Value → Outcome DeployError (Unit {0})
unfolding check_plugins
check_governed route = read "labels" route >>> λ labels.
    read "ouf-managed" (or_empty labels) >>> λ managed.
    refuse (not (is_text "true" managed)) "route is not a governed internal materialization"
    >>> λ _. read "ouf-exposure" (or_empty labels) >>> λ exposure.
        refuse (not (is_text "internal" exposure))
          "route is not a governed internal materialization"
        >>> λ _. read "uri" route >>> λ uri.
            refuse (not (rooted (text_of uri))) "invalid route uri" >>> λ _.
            read "methods" route >>> λ methods.
            refuse (not (is_single (items_of methods))) "route must contain exactly one method"
            >>> λ _. read "plugins" route >>> λ plugins.
                check_plugins required_plugins (or_empty plugins)

-- One round of the loop of `validate_routes`, with the ids seen before it.
unfoldable pub validate_route : List String → Value → Outcome DeployError String
unfolding check_governed
validate_route seen route = refuse (not (is_dict route)) "route must be an object" >>> λ _.
    read "id" route >>> λ id. named (text_of id) >>> λ route_id.
    refuse (contains seen route_id) "duplicate route id" >>> λ _.
    check_governed route >>> λ _. ok route_id

unfoldable pub validate_each : List String → List Value → Outcome DeployError (List String)
validate_each ids [] = ok ids
validate_each ids (route ∷ routes) =
    validate_route ids route >>> λ route_id. validate_each (route_id ∷ ids) routes

abbrev pub validate_list : Option (List Value) → Outcome DeployError (List String)
validate_list none = raised (value_error "materialization must contain routes")
validate_list (some []) = raised (value_error "materialization must contain routes")
validate_list (some (route ∷ routes)) = validate_each [] (route ∷ routes)

-- `validate_routes(routes)`: the ids, as a set.
unfoldable pub validate_routes : Value → Outcome DeployError (List String)
validate_routes routes = validate_list (items_of routes)

-- `probe_path(uri)`
unfoldable pub probe_path : String → String
unfolding ends_with drop_last
probe_path uri = if ends_with uri "/*" then String.◌++◌ (drop_last uri) "probe" else uri

abbrev pub as_text : Option String → Outcome DeployError String
as_text none = raised type_error
as_text (some s) = ok s

-- `route[k]`, a text
abbrev pub text_at : String → Value → Outcome DeployError String
text_at k route = read k route >>> λ v. as_text (text_of v)

abbrev pub first_of : Option (List Value) → Outcome DeployError String
first_of none = raised type_error
first_of (some []) = raised type_error
first_of (some (m ∷ ms)) = as_text (text_of m)

abbrev pub own_id : String → String
own_id id = id

abbrev pub key_of : String × Value → String
key_of (id, old) = id

abbrev pub unprobed : Value → Value
unprobed route = null

module _ {W : Type 0} (admin : Admin W) where
  unfoldable pub send : Method → String → Value → Call W Reply
  send method id body w = replied (admin.route method id body w)

  unfoldable pub probe : String → String → Value → Call W ℕ
  probe path method body w = probed (admin.probe path method body w)

  unfoldable pub save : Dict Value → Call W (Unit {0})
  save previous w = saved (admin.save previous w)

  -- What the snapshot holds of one id: `null` where there is no route.
  unfoldable pub snapshot_one : String → Call W Value
  snapshot_one id = do
    reply ← send get id null
    known ← check (reply.code == 200 || reply.code == 404) (runtime_error "snapshot HTTP")
    lift (if reply.code == 200 then route_value reply.body else ok null)

  unfoldable pub snapshot_each : List String → Call W (Dict Value)
  unfolding snapshot_one
  snapshot_each [] = lift (ok [])
  snapshot_each (id ∷ ids) = do
    old ← snapshot_one id
    rest ← snapshot_each ids
    lift (ok ((id, old) ∷ rest))

  -- `snapshot(route_ids, admin)`
  unfoldable pub snapshot : List String → Call W (Dict Value)
  unfolding sort_by
  snapshot ids = do
    previous ← snapshot_each (sort_by own_id ids)
    written ← save previous
    lift (ok previous)

  -- The ids whose restoration failed, and the world behind it.
  unfoldable pub restore_each : Dict Value → W → List String × W
  restore_each [] w = ([], w)
  restore_each ((id, old) ∷ rest) w =
      let (reply, w1) = admin.route (if truthy old then put else delete) id old w in
      let (failures, w2) = restore_each rest w1 in
      (if is_restored reply then failures else id ∷ failures, w2)

  abbrev pub reported : List String × W → Outcome DeployError (Unit {0}) × W
  reported ([], w) = (ok tt, w)
  reported (id ∷ ids, w) = (raised (rollback_incomplete (id ∷ ids)), w)

  -- `restore(previous, admin)`
  unfoldable pub restore : Dict Value → Call W (Unit {0})
  unfolding sort_by
  restore previous w = reported (restore_each (sort_by key_of previous) w)

  abbrev pub after_failure :
      DeployError → Outcome DeployError (Unit {0}) × W → Outcome DeployError (Unit {0}) × W
  after_failure e (ok _, w) = (raised e, w)
  after_failure e (raised f, w) = (raised f, w)

  -- `except BaseException: restore(previous, admin); raise`
  abbrev pub or_restore :
      Dict Value → Outcome DeployError (Unit {0}) × W → Outcome DeployError (Unit {0}) × W
  or_restore previous (ok _, w) = (ok tt, w)
  or_restore previous (raised e, w) = after_failure e (restore previous w)

  -- The readback: APISIX may fill defaults, but every configured field must survive.
  unfoldable pub confirm : Value → String → Call W (Unit {0})
  confirm route id = do
    again ← send get id null
    actual ← lift (read_route again)
    check (matches route actual) (runtime_error "route readback differs")

  -- One round of the first loop of `apply`, for the route's id.
  unfoldable pub written_as : Value → String → Call W (Unit {0})
  unfolding confirm
  written_as route id = do
    reply ← send put id route
    written ← check (is_written reply.code) (runtime_error "write HTTP")
    confirm route id

  unfoldable pub write_route : Value → Call W (Unit {0})
  unfolding written_as
  write_route route = lift (text_at "id" route) >>= written_as route

  unfoldable pub write_routes : List Value → Call W (Unit {0})
  write_routes [] = lift (ok tt)
  write_routes (route ∷ routes) = do written ← write_route route; write_routes routes

  -- `anonymous_probe` gives the request's body; without one there is none (`unprobed`).
  module _ (anonymous_probe : Value → Value) where
    unfoldable pub probe_routes : List Value → Call W (Unit {0})
    unfolding probe_path
    probe_routes [] = lift (ok tt)
    probe_routes (route ∷ routes) = do
      uri ← lift (text_at "uri" route)
      methods ← lift (read "methods" route)
      method ← lift (first_of (items_of methods))
      code ← probe (probe_path uri) method (anonymous_probe route)
      refused ← check (code == 401 || code == 403) (runtime_error "anonymous protected route HTTP")
      probe_routes routes

    unfoldable pub install : List Value → Call W (Unit {0})
    install routes = do written ← write_routes routes; probe_routes routes

    -- The body of `try`, with its handler.
    unfoldable pub guarded : Dict Value → List Value → Call W (Unit {0})
    guarded previous routes w = or_restore previous (install routes w)

    -- `apply(routes, admin, anonymous_probe)`
    unfoldable pub apply : List Value → Call W (Unit {0})
    apply routes = do
      ids ← lift (validate_list (some routes))
      previous ← snapshot ids
      guarded previous routes
