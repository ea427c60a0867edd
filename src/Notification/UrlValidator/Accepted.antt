-- ===== src/Notification/UrlValidator/Accepted.antt =====
-- What url_validator.go has made sure of when it lets a URL through.
use aipx.Prelude.{
  ℕ, String, str_eq, eq_iff, Bool, true, false, not, Option, none, some, List, [], ◌∷◌, ◌≡◌, ◌≢◌,
  ◌⊎◌, inl, inr, arith, Bool-cases, Option-cases,
}
use aipx.Prelude.Dict.{lookup, erase, lookup-erase_self}
use aipx.Notification.Ip.{Ip, validate_ip}
use aipx.Notification.UrlValidator.{
  ParsedUrl, UrlValidator, UrlError, dns_failed, blocked_ip, blocked_port, validate_scheme,
  is_dangerous, dangerous_hosts, has_suffix, check_allowlist, blocked_ports, is_member,
  validate_port, cache_get, resolve_dns, validate_ips, validate_host, validate_resolved, validate,
  validate_twice,
}

-- Each address passes `validateIP`.
abbrev pub AllPublic : List Ip → Type 0
AllPublic [] = Unit
AllPublic (ip ∷ ips) = (validate_ip ip ≡ true) × AllPublic ips

validate_ips-AllPublic : (ips : List Ip) → validate_ips ips ≡ true → AllPublic ips
unfolding validate_ips
validate_ips-AllPublic [] h = tt
validate_ips-AllPublic (ip ∷ ips) h = elim (Bool-cases (validate_ip ip)) [
  | inl e ↦ (e, validate_ips-AllPublic ips (rw e at h))
  | inr e ↦ absurd (untrue (rw e at h))
]
  where
    untrue : false ≡ true → ⊥
    untrue h = cc

-- The host is none of the dangerous ones, nor below one.
abbrev pub IsSafe : String → List String → Type 0
IsSafe host [] = Unit
IsSafe host (d ∷ ds) = (host ≢ d) × (has_suffix host (String.◌∷◌ "." d) ≡ false) × IsSafe host ds

is_dangerous-IsSafe :
    (host : String) (ds : List String) → is_dangerous host ds ≡ false → IsSafe host ds
unfolding is_dangerous
is_dangerous-IsSafe host [] h = tt
is_dangerous-IsSafe host (d ∷ ds) h = (
  λ same. absurd (ground (arith, eq_iff host d)),
  ground arith,
  is_dangerous-IsSafe host ds (ground arith),
)

module _ (parse_ip : String → Option Ip) where
  -- What a validation at this time, with this answer of the resolver, has made sure of.
  pub record IsAccepted (now : ℕ) (answer : Option (List Ip)) (u : ParsedUrl) (v : UrlValidator)
      : Type 0 where
    pub scheme : (u.scheme ≡ "https") ⊎ ((v.allow_http ≡ true) × (u.scheme ≡ "http"))
    pub host : u.host ≢ ""
    pub safe : IsSafe u.host dangerous_hosts
    pub allowed : check_allowlist v.allowed_hosts u.host ≡ true
    pub port : (u.port ≡ "") ⊎ (is_member u.port blocked_ports ≡ false)
    pub ips : List Ip
    pub resolved : (resolve_dns now answer u.host v).0 ≡ some ips
    pub public : AllPublic ips

  scheme_ok :
      (allow : Bool) (s : String)
      → validate_scheme allow s ≡ true
      → (s ≡ "https") ⊎ ((allow ≡ true) × (s ≡ "http"))
  unfolding validate_scheme
  scheme_ok allow s h = ground (arith, eq_iff s "https", eq_iff s "http")

  port_ok : (p : String) → validate_port p ≡ true → (p ≡ "") ⊎ (is_member p blocked_ports ≡ false)
  unfolding validate_port
  port_ok p h = elim (Bool-cases (str_eq p "")) [
    | inl e ↦ inl ((eq_iff p "").0 e)
    | inr e ↦ inr (untold (is_member p blocked_ports) (rw e at h))
  ]
    where
      untold : (b : Bool) → not b ≡ true → b ≡ false
      untold b h = ground arith

  host_ok :
      (h : String)
      → validate_host parse_ip h ≡ none
      → (str_eq h "" ≡ false) × (is_dangerous h dangerous_hosts ≡ false)
  unfolding validate_host
  host_ok h e = ground arith

  an_error : (e : UrlError) → ◌≡◌ {A = Option UrlError} (some e) none → ⊥
  an_error e h = cc

  resolved_ok :
      (now : ℕ) (answer : Option (List Ip)) (u : ParsedUrl) (v : UrlValidator)
      → (validate_resolved parse_ip now answer u v).0 ≡ none
      → (ips : List Ip) × ((resolve_dns now answer u.host v).0 ≡ some ips)
        × AllPublic ips
        × (validate_port u.port ≡ true)
  unfolding validate_resolved
  resolved_ok now answer u v h = elim (Option-cases (resolve_dns now answer u.host v).0) [
    | inl e ↦ absurd (an_error dns_failed (rw (e, validate_resolved) at h))
    | inr (ips, e) ↦ elim (Bool-cases (validate_ips ips)) [
      | inr bad ↦ absurd (an_error blocked_ip (rw bad at (rw (e, validate_resolved) at h)))
      | inl good ↦ elim (Bool-cases (validate_port u.port)) [
        | inr bad ↦
            absurd (an_error blocked_port (rw (good, bad) at (rw (e, validate_resolved) at h)))
        | inl port ↦ (ips, e, validate_ips-AllPublic ips good, port)
      ]
    ]
  ]

  -- A URL that `Validate` lets through has the scheme https, or http where that is allowed; its host
  -- is neither empty nor one of the dangerous names nor below one; the allowlist, where there is one,
  -- has the host, with or without www; the port is none of the blocked ones; and each address that
  -- the resolver, or the cache while it is valid, gives for the host is one that `validateIP` passes.
  pub validate-IsAccepted :
      (now : ℕ) (answer : Option (List Ip)) (u : ParsedUrl) (v : UrlValidator)
      → (validate parse_ip now answer false (some u) v).0 ≡ none
      → IsAccepted now answer u v
  unfolding validate
  validate-IsAccepted now answer u v h = elim (Bool-cases (validate_scheme v.allow_http u.scheme)) [
    | inr bad ↦ absurd (an_error UrlError.invalid_scheme (rw bad at h))
    | inl scheme ↦ elim (Option-cases (validate_host parse_ip u.host)) [
      | inr (x, e) ↦ absurd (an_error x (rw e at (rw scheme at h)))
      | inl e ↦ elim (Bool-cases (check_allowlist v.allowed_hosts u.host)) [
        | inr bad ↦ absurd (an_error UrlError.not_allowed (rw bad at (rw e at (rw scheme at h))))
        | inl allowed ↦
            let (ips, resolved, public, port) =
              resolved_ok now answer u v (rw allowed at (rw e at (rw scheme at h))) in
            let (named, safe) = host_ok u.host e in
            record {
              scheme = scheme_ok v.allow_http u.scheme scheme;
              host = λ same. absurd (unequal named same);
              safe = is_dangerous-IsSafe u.host dangerous_hosts safe;
              allowed = allowed;
              port = port_ok u.port port;
              ips = ips;
              resolved = resolved;
              public = public;
            }
      ]
    ]
  ]
    where
      unequal : str_eq u.host "" ≡ false → u.host ≡ "" → ⊥
      unequal named same = ground (arith, eq_iff u.host "")

  -- Without an entry in the cache the addresses are the resolver's.
  resolve_fresh :
      (now : ℕ) (answer : Option (List Ip)) (host : String) (v : UrlValidator) (ips : List Ip)
      → lookup host v.cache ≡ none
      → (resolve_dns now answer host v).0 ≡ some ips
      → answer ≡ some ips
  unfolding resolve_dns cache_get
  resolve_fresh now answer host v ips absent h = ground arith

  -- `ValidateWithDNSRebindingProtection` lets a URL through only where both validations do, and the
  -- second one on addresses that the resolver gives anew, whatever the cache held: each of them is
  -- one that `validateIP` passes.
  pub validate_twice-fresh :
      (now now' : ℕ) (answer answer' : Option (List Ip)) (u : ParsedUrl) (v : UrlValidator)
      → (validate_twice parse_ip now answer now' answer' u v).0 ≡ none
      → IsAccepted now answer u v × (ips : List Ip) × (answer' ≡ some ips) × AllPublic ips
  unfolding validate_twice
  validate_twice-fresh now now' answer answer' u v h =
      elim (Option-cases (validate parse_ip now answer false (some u) v).0) [
        | inr (x, e) ↦ absurd (an_error x (rw (e, validate_twice) at h))
        | inl e ↦
            let v' = (validate parse_ip now answer false (some u) v).1 in
            let cleared : UrlValidator = record v' { cache = erase u.host v'.cache } in
            let again = validate-IsAccepted now' answer' u cleared (rw (e, validate_twice) at h) in
            (
              validate-IsAccepted now answer u v e,
              again.ips,
              resolve_fresh now' answer' u.host cleared again.ips
                  (lookup-erase_self u.host v'.cache) again.resolved,
              again.public,
            )
      ]
