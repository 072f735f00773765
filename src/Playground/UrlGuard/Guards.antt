-- ===== src/Playground/UrlGuard/Guards.antt =====
-- What a URL that is allowed is not.
use inference_x.Prelude.{
  String, false, Option, none, some, List, [], ◌∷◌, any, str_eq, ◌≡◌, ◌≢◌, ◌⊎◌, refl, inl, inr,
  arith, Bool-cases, All, eq_iff,
}
use inference_x.Playground.UrlGuard.{
  ParsedUrl, IpAddress, Network, ip_is_blocked, address_is_blocked, resolved_is_blocked,
  hostname_is_blocked, check_hostname, validate_base_url,
}

-- An address that is not private, not link-local and not a loopback, if it parses.
abbrev pub External : Network → String → Type 0
External network ip_str =
    (addr : IpAddress)
    → network.ip_address ip_str ≡ some addr
    → (addr.is_private ≡ false) × (addr.is_link_local ≡ false) × (addr.is_loopback ≡ false)

-- A host other than localhost, whose name is an external address or resolves to such only.
abbrev pub ExternalHost : Network → String → Type 0
ExternalHost network hostname =
    (network.lowered hostname ≢ "localhost")
    × External network hostname
    × ((network.ip_address hostname ≡ none)
        → (infos : List String) → network.addresses hostname ≡ some infos
        → All (External network) infos)

not_blocked-External :
    (network : Network) (ip_str : String)
    → address_is_blocked network ip_str ≡ false
    → External network ip_str
unfolding address_is_blocked ip_is_blocked
not_blocked-External network ip_str h addr a = ground (arith, h, a)

not_blocked-All :
    (network : Network) (infos : List String)
    → any (address_is_blocked network) infos ≡ false
    → All (External network) infos
not_blocked-All network [] h = tt
not_blocked-All network (x ∷ xs) h = elim (Bool-cases (address_is_blocked network x)) [
  | inl e ↦ absurd (ground (arith, e, h))
  | inr e ↦ (not_blocked-External network x e, not_blocked-All network xs (ground (arith, e, h)))
]

hostname-ExternalHost :
    (network : Network) (hostname : String)
    → hostname_is_blocked network hostname ≡ false
    → ExternalHost network hostname
unfolding hostname_is_blocked resolved_is_blocked ip_is_blocked
hostname-ExternalHost network hostname h = (
  λ e. ground (arith, h, (eq_iff (network.lowered hostname) "localhost").1 e),
  λ addr a. ground (arith, h, a),
  λ n infos r. not_blocked-All network infos (ground (arith, h, n, r)),
)

scheme_cases :
    (network : Network) (parsed : ParsedUrl)
    → validate_base_url network parsed false ≡ none
    → ((parsed.scheme ≡ "http") ⊎ (parsed.scheme ≡ "https"))
      × (check_hostname network parsed.hostname false ≡ none)
unfolding validate_base_url
scheme_cases network parsed h = elim (Bool-cases (str_eq parsed.scheme "http")) [
  | inl e ↦ (inl ((eq_iff parsed.scheme "http").0 e), ground (arith, e, h))
  | inr e ↦ elim (Bool-cases (str_eq parsed.scheme "https")) [
    | inl f ↦ (inr ((eq_iff parsed.scheme "https").0 f), ground (arith, e, f, h))
    | inr f ↦ absurd (ground (arith, e, f, h))
  ]
]

host_cases :
    (network : Network) (host : Option String)
    → check_hostname network host false ≡ none
    → (hostname : String) × (host ≡ some hostname) × ExternalHost network hostname
host_cases network none h = absurd (ground (arith, h))
host_cases network (some hostname) h =
    (hostname, refl, hostname-ExternalHost network hostname (ground (arith, h)))

-- Without the permission for internal addresses, an allowed URL has the scheme http or https and a
-- hostname that is not localhost; if it parses as an address, that one is not private, not link-local
-- and not a loopback; and if it does not but resolves, the same holds of every address it resolves to
-- that parses.
pub validate_base_url-ExternalHost :
    (network : Network) (parsed : ParsedUrl)
    → validate_base_url network parsed false ≡ none
    → ((parsed.scheme ≡ "http") ⊎ (parsed.scheme ≡ "https"))
      × ((hostname : String) × (parsed.hostname ≡ some hostname) × ExternalHost network hostname)
validate_base_url-ExternalHost network parsed h =
    let s = scheme_cases network parsed h in (s.0, host_cases network parsed.hostname s.1)
