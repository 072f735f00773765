-- ===== src/Playground/UrlGuard.antt =====
-- playground/url_validation.py: the guard against requests to internal addresses. `urlparse`,
-- `ipaddress` and the resolver are arguments.
pub mod Guards
use inference_x.Prelude.{
  String, Bool, true, false, not, ◌&&◌, ◌||◌, Option, none, some, List, [], ◌∷◌, any, str_eq,
  if◌then◌else◌,
}

pub record ParsedUrl : Type 0 where
  pub scheme : String
  pub hostname : Option String

pub record IpAddress : Type 0 where
  pub is_private : Bool
  pub is_link_local : Bool
  pub is_loopback : Bool

-- `hostname.lower()`, `ipaddress.ip_address` (none where it raises), and the addresses of
-- `socket.getaddrinfo` (none where it raises).
pub record Network : Type 0 where
  pub lowered : String → String
  pub ip_address : String → Option IpAddress
  pub addresses : String → Option (List String)

pub data UrlError : Type 0 where
  unsupported_scheme no_hostname internal_address : UrlError

unfoldable pub ip_is_blocked : IpAddress → Bool
ip_is_blocked addr = addr.is_private || addr.is_link_local || addr.is_loopback

-- An address that does not parse is passed over.
unfoldable pub address_is_blocked : Network → String → Bool
unfolding ip_is_blocked
address_is_blocked network ip_str = elim (network.ip_address ip_str) [
  | none ↦ false
  | some addr ↦ ip_is_blocked addr
]

unfoldable pub resolved_is_blocked : Network → String → Bool
unfolding address_is_blocked
resolved_is_blocked network hostname = elim (network.addresses hostname) [
  | none ↦ false
  | some infos ↦ any (address_is_blocked network) infos
]

unfoldable pub hostname_is_blocked : Network → String → Bool
unfolding ip_is_blocked resolved_is_blocked
hostname_is_blocked network hostname =
    if str_eq (network.lowered hostname) "localhost"
    then true
    else elim (network.ip_address hostname) [
      | some addr ↦ ip_is_blocked addr
      | none ↦ resolved_is_blocked network hostname
    ]

abbrev pub check_hostname : Network → Option String → Bool → Option UrlError
check_hostname network none allow_internal = some no_hostname
check_hostname network (some hostname) allow_internal =
    if str_eq hostname ""
    then some no_hostname
    else if allow_internal
    then none
    else if hostname_is_blocked network hostname
    then some internal_address
    else none

-- The error, if the URL is not allowed.
unfoldable pub validate_base_url : Network → ParsedUrl → Bool → Option UrlError
unfolding hostname_is_blocked
validate_base_url network parsed allow_internal =
    if str_eq parsed.scheme "http" || str_eq parsed.scheme "https"
    then check_hostname network parsed.hostname allow_internal
    else some unsupported_scheme
