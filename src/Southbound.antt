-- ===== src/Southbound.antt =====
-- tools/southbound_security.py: the destinations that the gateway may call. `urllib.parse`,
-- `ipaddress` and the resolver are no part of the repository, and are parameters.
pub mod Allowed
mod Tests
use ouf_api_gateway.Base.{
  suc, ℕ, zero, suc, Bool, true, false, not, ◌&&◌, ◌||◌, Option, none, some, String, List, [], ◌∷◌,
  ◌==◌, ◌≠◌, nat_eq, string_eq, Outcome, ok, raised, if◌then◌else◌, any, contains,
}
use ouf_api_gateway.Base.Text.{sort_by, insert_sorted}

pub record RegisteredEndpoint : Type 0 where
  pub scheme : String
  pub host : String
  pub port : ℕ
  pub allowed_cidrs : List String

-- What `urlparse` reads. `port` is `none` where reading the attribute raises ValueError.
pub record ParsedUrl : Type 0 where
  pub username : Option String
  pub password : Option String
  pub fragment : String
  pub scheme : String
  pub hostname : Option String
  pub port : Option (Option ℕ)

-- SouthboundDenied with its message, and the ValueError of the parsers.
pub data SouthboundError : Type 0 where
  denied : String → SouthboundError
  value_error : SouthboundError

infixl 5 ◌>>=◌
unfoldable pub ◌>>=◌ :
    {A B : Type 0}
    → Outcome SouthboundError A
    → (A → Outcome SouthboundError B)
    → Outcome SouthboundError B
ok a >>= f = f a
raised e >>= f = raised e

-- `if test: raise SouthboundDenied(message)`
unfoldable pub deny : Bool → String → Outcome SouthboundError (Unit {0})
deny true message = raised (denied message)
deny false message = ok tt

unfoldable pub parsed : {A : Type 0} → Option A → Outcome SouthboundError A
parsed none = raised value_error
parsed (some a) = ok a

abbrev pub nonblank : Option String → Bool
nonblank none = false
nonblank (some s) = s ≠ ""

abbrev pub is_empty : {A : Type 0} → List A → Bool
is_empty [] = true
is_empty (x ∷ xs) = false

-- `parsed.hostname == registered.host`
abbrev pub is_host : Option String → String → Bool
is_host none host = false
is_host (some name) host = name == host

abbrev pub default_port : String → ℕ
default_port scheme = if scheme == "https" then 443 else 80

-- `parsed.port or (443 if parsed.scheme == 'https' else 80)`
abbrev pub port_or_default : Option ℕ → String → ℕ
port_or_default none scheme = default_port scheme
port_or_default (some zero) scheme = default_port scheme
port_or_default (some (suc n)) scheme = suc n

-- The members of a set, each once.
unfoldable pub distinct : List String → List String
distinct [] = []
distinct (x ∷ xs) = let rest = distinct xs in if contains xs x then rest else x ∷ rest

abbrev pub own_text : String → String
own_text s = s

-- The condition of UNREGISTERED_ENDPOINT; the port is read only where scheme and host are equal.
unfoldable pub is_unregistered : ParsedUrl → RegisteredEndpoint → Outcome SouthboundError Bool
unfolding parsed
is_unregistered url registered =
    if (url.scheme ≠ registered.scheme) || not (is_host url.hostname registered.host)
    then ok true
    else (parsed url.port >>= λ port. ok (port_or_default port url.scheme ≠ registered.port))

-- The attributes and the membership that the code reads of the `ipaddress` module.
pub record IpAddresses (Address Network : Type 0) : Type 0 where
  pub ip_address : String → Option Address
  pub ip_network : String → Option Network
  pub has_member : Network → Address → Bool
  pub is_loopback : Address → Bool
  pub is_link_local : Address → Bool
  pub is_multicast : Address → Bool
  pub is_unspecified : Address → Bool
  pub is_reserved : Address → Bool
  pub is_private : Address → Bool

module _ {Address Network : Type 0} (ips : IpAddresses Address Network) where
  -- `_forbidden(ip)`
  unfoldable pub forbidden : Address → Bool
  forbidden ip =
      ips.is_loopback ip
      || ips.is_link_local ip
      || ips.is_multicast ip
      || ips.is_unspecified ip
      || ips.is_reserved ip

  unfoldable pub networks_of : List String → Outcome SouthboundError (List Network)
  networks_of [] = ok []
  networks_of (cidr ∷ cidrs) = parsed (ips.ip_network cidr) >>= λ network.
      networks_of cidrs >>= λ networks. ok (network ∷ networks)

  abbrev pub in_some : List Network → Address → Bool
  in_some networks ip = any (λ network. ips.has_member network ip) networks

  -- One round of the loop over the addresses.
  unfoldable pub check_address : List Network → String → Outcome SouthboundError (Unit {0})
  unfolding forbidden
  check_address networks raw = parsed (ips.ip_address raw) >>= λ ip.
      deny (forbidden ip) "FORBIDDEN_ADDRESS_CLASS" >>= λ _.
      deny (ips.is_private ip && is_empty networks) "PRIVATE_ADDRESS_UNREGISTERED" >>= λ _.
      deny (not (is_empty networks) && not (in_some networks ip)) "DNS_REBINDING_OR_CIDR_MISMATCH"

  unfoldable pub check_addresses : List Network → List String → Outcome SouthboundError (Unit {0})
  check_addresses networks [] = ok tt
  check_addresses networks (raw ∷ rest) =
      check_address networks raw >>= λ _. check_addresses networks rest

  -- From the resolver's answer on; `none` is an OSError.
  unfoldable pub check_answers :
      RegisteredEndpoint → Option (List String) → Outcome SouthboundError (List String)
  unfolding sort_by insert_sorted distinct
  check_answers registered none = raised (denied "DNS_RESOLUTION_FAILED")
  check_answers registered (some answers) =
      deny (is_empty (sort_by own_text (distinct answers))) "DNS_RESOLUTION_EMPTY" >>= λ _.
      networks_of registered.allowed_cidrs >>= λ networks.
      check_addresses networks (sort_by own_text (distinct answers)) >>= λ _.
      ok (sort_by own_text (distinct answers))

  module _ (urlparse : String → Option ParsedUrl)
      (resolver : Option String → ℕ → Option (List String)) where
    -- `validate_destination(url, registered, resolver)`
    unfoldable pub validate_destination :
        String → RegisteredEndpoint → Outcome SouthboundError (List String)
    unfolding is_unregistered
    validate_destination url registered = parsed (urlparse url) >>= λ parts.
        deny (nonblank parts.username || nonblank parts.password || (parts.fragment ≠ ""))
          "UNSAFE_URL_COMPONENT"
        >>= λ _. is_unregistered parts registered >>= λ unregistered.
            deny unregistered "UNREGISTERED_ENDPOINT" >>= λ _.
            deny (parts.scheme ≠ "https") "TLS_REQUIRED" >>= λ _.
            check_answers registered (resolver parts.hostname registered.port)

    -- `validate_redirect(current_url, location, registered, resolver)`
    unfoldable pub validate_redirect :
        (String → String → Option String)
        → String
        → String
        → RegisteredEndpoint
        → Outcome SouthboundError String
    validate_redirect urljoin current_url location registered =
        parsed (urljoin current_url location) >>= λ target.
        validate_destination target registered >>= λ _. ok target
