-- ===== src/Southbound/Tests.antt =====
-- A destination whose name is answered twice with one address of a registered network.
use package.text.Mathlib.Text.{starts_with}
use ouf_api_gateway.Base.{
  ℕ, false, Option, none, some, String, List, [], ◌∷◌, ◌==◌, string_eq, ◌≡◌, refl, ok, raised,
}
use ouf_api_gateway.Base.Text.{sort_by, insert_sorted}
use ouf_api_gateway.Southbound.{
  ◌>>=◌, distinct, forbidden, check_address, check_addresses, networks_of, check_answers,
  is_unregistered, deny, parsed, RegisteredEndpoint, ParsedUrl, IpAddresses, denied,
  validate_destination, validate_redirect,
}
use ouf_api_gateway.Southbound.Allowed.{IsRegistered, IsChecked, validate_destination-AllAllowed}

-- An address is its text, and a network the text that its addresses begin with.
abbrev prefixes : IpAddresses String String
prefixes = record {
  ip_address = λ raw. some raw;
  ip_network = λ cidr. some cidr;
  has_member = λ network ip. starts_with ip network;
  is_loopback = λ ip. ip == "127.0.0.1";
  is_link_local = λ ip. starts_with ip "169.254.";
  is_multicast = λ ip. false;
  is_unspecified = λ ip. ip == "0.0.0.0";
  is_reserved = λ ip. false;
  is_private = λ ip. starts_with ip "10.";
}

abbrev parts : ParsedUrl
parts = record {
  username = none;
  password = none;
  fragment = "";
  scheme = "https";
  hostname = some "owner.internal";
  port = some none;
}

abbrev urlparse : String → Option ParsedUrl
urlparse url = some parts

abbrev resolver : Option String → ℕ → Option (List String)
resolver host port = some ("10.1.0.9" ∷ "10.1.0.7" ∷ "10.1.0.9" ∷ [])

abbrev rebound : Option String → ℕ → Option (List String)
rebound host port = some ("10.1.0.9" ∷ "127.0.0.1" ∷ [])

abbrev registered : RegisteredEndpoint
registered = record {
  scheme = "https";
  host = "owner.internal";
  port = 443;
  allowed_cidrs = "10.1." ∷ [];
}

abbrev found : List String
found = "10.1.0.7" ∷ "10.1.0.9" ∷ []

destination_runs :
    validate_destination prefixes urlparse resolver "https://owner.internal/" registered ≡ ok found
unfolding validate_destination ◌>>=◌ parsed deny is_unregistered check_answers networks_of
    check_addresses check_address forbidden distinct sort_by insert_sorted
destination_runs = refl

rebinding_denied :
    validate_redirect prefixes urlparse rebound
      (λ base location. some location)
      "https://owner.internal/"
      "https://owner.internal/next"
      registered
    ≡ raised (denied "FORBIDDEN_ADDRESS_CLASS")
unfolding validate_redirect validate_destination ◌>>=◌ parsed deny is_unregistered check_answers
    networks_of check_addresses check_address forbidden distinct sort_by insert_sorted
rebinding_denied = refl

validate_destination-AllAllowed_example :
    (p : ParsedUrl) × (urlparse "https://owner.internal/" ≡ some p)
    × IsRegistered p registered
    × IsChecked prefixes registered (resolver p.hostname registered.port) found
validate_destination-AllAllowed_example =
    validate_destination-AllAllowed prefixes urlparse resolver "https://owner.internal/" registered
      found destination_runs
