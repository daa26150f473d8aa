-- ===== src/Mcp/Envelope.antt =====
-- What the mediators of tools/mcp_dispatch.py share: identities, responses, errors and headers.
use Prim.Native.Char.{code}
use ouf_api_gateway.Base.{
  ℕ, ◌+◌, Bool, true, false, ◌&&◌, Option, none, some, String, List, [], ◌∷◌, ◌==◌, string_eq,
  nat_eq, leb, if◌then◌else◌,
}
use ouf_api_gateway.Base.Dict.{Dict}

pub record DispatchError : Type 0 where
  pub status : ℕ
  pub code : String
  pub detail : String

-- A call raises a `DispatchError`, a `KeyError`, a `TypeError`, or what the upstream raised.
pub data Failure : Type 0 where
  problem : DispatchError → Failure
  key_error : String → Failure
  upstream_failed : String → Failure
  type_error : String → Failure

abbrev pub dispatch_error : ℕ → String → String → Failure
dispatch_error status code detail =
    problem (record { status = status; code = code; detail = detail })

pub record TrustedIdentity : Type 0 where
  pub service_principal_id : String
  pub principal_id : String
  pub tenant_id : String
  pub actor_type : String
  pub authentication_context_ref : String
  pub authorization_decision_ref : String
  pub scopes : List String

abbrev pub Bytes : Type 0
Bytes = List ℕ

pub record BackendResponse : Type 0 where
  pub status : ℕ
  pub body : Bytes
  pub headers : Dict String

-- `execute` of the upstream port: a call that is sent.
pub record UpstreamCall : Type 0 where
  pub service : String
  pub path : String
  pub body : Bytes
  pub headers : Dict String
  pub timeout_seconds : ℕ

-- `c.lower()` of an ASCII character
unfoldable pub lower_code : ℕ → ℕ
lower_code n = if leb b'A' n && leb n b'Z' then n + 32 else n

-- `name.lower() == lowered`, for the ASCII names of headers
unfoldable pub is_named : String → String → Bool
unfolding lower_code
is_named String.[] String.[] = true
is_named String.[] (String.◌∷◌ d lowered) = false
is_named (String.◌∷◌ c name) String.[] = false
is_named (String.◌∷◌ c name) (String.◌∷◌ d lowered) =
    (lower_code (code c) == code d) && is_named name lowered

-- `{name.lower(): value ...}.get(lowered)`: the last header of that name.
unfoldable pub header : String → Dict String → Option String
header lowered [] = none
header lowered ((name, value) ∷ headers) =
    let later = header lowered headers in
    elim later [ some v ↦ some v | none ↦ if is_named name lowered then some value else none ]

-- `next((v for k, v in headers.items() if k.lower() == lowered), "")`: the first header of that name.
unfoldable pub first_header : String → Dict String → String
first_header lowered [] = ""
first_header lowered ((name, value) ∷ headers) =
    if is_named name lowered then value else first_header lowered headers
