-- ===== src/Deploy.antt =====
-- The scripts of ops/apisix that install routes over the Admin API: what they share. `Admin` is the
-- class of that name, whose calls run curl in a container: a call may raise.
pub mod Routes
pub mod Installed
pub mod Keeps
pub mod Restored
pub mod Snapshots
pub mod Table
pub mod Validated
pub mod Atomic
pub mod Status
mod Tests
use ouf_api_gateway.Base.{
  ℕ, Bool, true, false, ◌&&◌, ◌||◌, Option, none, some, String, List, [], ◌∷◌, ◌==◌, nat_eq,
  string_eq, Outcome, ok, raised, if◌then◌else◌, length,
}
use ouf_api_gateway.Base.Dict.{Dict}
use ouf_api_gateway.Document.{
  Value, null, flag, integer, text, items, fields, Fields, end, entry, find, or_null, without,
  same_value,
}

pub data Method : Type 0 where
  get put delete : Method

pub record Reply : Type 0 where
  pub code : ℕ
  pub body : Value

-- An exception of a script. `unreachable` is any failure of the call itself.
pub data DeployError : Type 0 where
  value_error : String → DeployError
  runtime_error : String → DeployError
  rollback_incomplete : List String → DeployError
  type_error : DeployError
  unreachable : DeployError

-- `route` is `Admin.route`, `probe` a request through the public listener, and `save` writes the
-- snapshot's file. `none` and `false` stand for an exception.
pub record Admin (World : Type 0) : Type 0 where
  pub route : Method → String → Value → World → Option Reply × World
  pub probe : String → String → Value → World → Option ℕ × World
  pub save : Dict Value → World → Bool × World

abbrev pub Call : Type 0 → Type 0 → Type 0
Call W A = W → Outcome DeployError A × W

unfoldable pub continued :
    {W A B : Type 0} → Outcome DeployError A × W → (A → Call W B) → Outcome DeployError B × W
continued (ok a, w) f = f a w
continued (raised e, w) f = (raised e, w)

infixl 5 ◌>>=◌
unfoldable pub ◌>>=◌ : {W A B : Type 0} → Call W A → (A → Call W B) → Call W B
unfolding continued
◌>>=◌ m f w = continued (m w) f

unfoldable pub lift : {W A : Type 0} → Outcome DeployError A → Call W A
lift r w = (r, w)

unfoldable pub check : {W : Type 0} → Bool → DeployError → Call W (Unit {0})
check true e w = (ok tt, w)
check false e w = (raised e, w)

abbrev pub replied : {W : Type 0} → Option Reply × W → Outcome DeployError Reply × W
replied (none, w) = (raised unreachable, w)
replied (some r, w) = (ok r, w)

abbrev pub probed : {W : Type 0} → Option ℕ × W → Outcome DeployError ℕ × W
probed (none, w) = (raised unreachable, w)
probed (some code, w) = (ok code, w)

abbrev pub saved : {W : Type 0} → Bool × W → Outcome DeployError (Unit {0}) × W
saved (true, w) = (ok tt, w)
saved (false, w) = (raised unreachable, w)

abbrev pub or_self : Option Value → Fields → Value
or_self none fs = fields fs
or_self (some v) fs = v

-- The dict under `value` in place of the document, where it holds one.
abbrev pub unwrapped : Option Value → Fields → Fields
unwrapped none fs = fs
unwrapped (some (fields gs)) fs = gs
unwrapped (some null) fs = fs
unwrapped (some (flag b)) fs = fs
unwrapped (some (integer n)) fs = fs
unwrapped (some (text s)) fs = fs
unwrapped (some (items xs)) fs = fs

abbrev pub without_times : Value → Outcome DeployError Value
without_times (fields fs) =
    ok (fields (without "update_time" (without "create_time" (unwrapped (find "value" fs) fs))))
without_times null = raised type_error
without_times (flag b) = raised type_error
without_times (integer n) = raised type_error
without_times (text s) = raised type_error
without_times (items xs) = raised type_error

-- `route_value(doc)`
unfoldable pub route_value : Value → Outcome DeployError Value
route_value (fields fs) = without_times (or_self (find "value" fs) fs)
route_value null = raised type_error
route_value (flag b) = raised type_error
route_value (integer n) = raised type_error
route_value (text s) = raised type_error
route_value (items xs) = raised type_error

-- The reply's route, and `{}` where there is none.
abbrev pub read_route : Reply → Outcome DeployError Value
read_route r = if r.code == 200 then route_value r.body else ok (fields end)

-- `not any(actual.get(k) != v for k, v in route.items())`
unfoldable pub covers : Fields → Fields → Bool
covers end actual = true
covers (entry k v rest) actual = same_value (or_null (find k actual)) v && covers rest actual

abbrev pub matches : Value → Value → Bool
matches (fields configured) (fields actual) = covers configured actual
matches (fields configured) null = false
matches (fields configured) (flag b) = false
matches (fields configured) (integer n) = false
matches (fields configured) (text s) = false
matches (fields configured) (items xs) = false
matches null actual = false
matches (flag b) actual = false
matches (integer n) actual = false
matches (text s) actual = false
matches (items xs) actual = false

abbrev pub is_written : ℕ → Bool
is_written code = code == 200 || code == 201

abbrev pub is_restored : Option Reply → Bool
is_restored none = false
is_restored (some r) = r.code == 200 || r.code == 201 || r.code == 204 || r.code == 404
