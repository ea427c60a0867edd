-- ===== src/Notification/UrlValidator.antt =====
-- services/notification-service/internal/security/url_validator.go: whether a URL may be requested.
-- `url.Parse`, `strings.ToLower`, `net.ParseIP` and the resolver are parameters: a URL comes parsed,
-- with its scheme and host in lower case. Times are nanoseconds.
pub mod Accepted
mod Tests
use Prim.Native.Char.{code}
use aipx.Prelude.{
  ℕ, zero, suc, ◌+◌, ◌-◌, ◌*◌, String, str_eq, Bool, true, false, ◌&&◌, ◌||◌, not, Option, none,
  some, List, [], ◌∷◌, if◌then◌else◌, ltb, ◌==◌,
}
use aipx.Prelude.Dict.{Dict, lookup, insert, erase}
use aipx.Notification.Ip.{Ip, validate_ip}

pub record ParsedUrl : Type 0 where
  pub scheme : String
  pub host : String
  pub port : String

pub record DnsCacheEntry : Type 0 where
  pub ips : List Ip
  pub timestamp : ℕ

pub data UrlError : Type 0 where
  empty_url invalid_url invalid_scheme empty_host dangerous_host blocked_ip not_allowed : UrlError
  dns_failed blocked_port : UrlError

-- `URLValidator`; the hosts are in lower case.
pub record UrlValidator : Type 0 where
  pub allowed_hosts : List String
  pub allow_http : Bool
  pub cache : Dict DnsCacheEntry
  pub ttl : ℕ

pub is_member : String → List String → Bool
is_member s [] = false
is_member s (x ∷ xs) = str_eq s x || is_member s xs

-- `AddAllowedHost`, `RemoveAllowedHost`, `SetAllowHTTP`
pub add_allowed_host : String → UrlValidator → UrlValidator
add_allowed_host host v = record v { allowed_hosts = host ∷ v.allowed_hosts }

pub without : String → List String → List String
without s [] = []
without s (x ∷ xs) = let rest = without s xs in if str_eq x s then rest else x ∷ rest

pub remove_allowed_host : String → UrlValidator → UrlValidator
unfolding without
remove_allowed_host host v = record v { allowed_hosts = without host v.allowed_hosts }

pub set_allow_http : Bool → UrlValidator → UrlValidator
set_allow_http allow v = record v { allow_http = allow }

-- `validateScheme`
pub validate_scheme : Bool → String → Bool
validate_scheme allow_http scheme = str_eq scheme "https" || (allow_http && str_eq scheme "http")

-- `strings.HasSuffix`
pub has_suffix : String → String → Bool
has_suffix String.[] p = str_eq String.[] p
has_suffix (String.◌∷◌ c s) p = str_eq (String.◌∷◌ c s) p || has_suffix s p

abbrev pub dangerous_hosts : List String
dangerous_hosts =
    "localhost" ∷ "127.0.0.1" ∷ "0.0.0.0" ∷ "::1" ∷ "[::]" ∷ "metadata.google.internal"
    ∷ "metadata.google.com" ∷ "metadata.goog" ∷ "169.254.169.254" ∷ "metadata.internal"
    ∷ "kubernetes.default" ∷ "kubernetes.default.svc" ∷ "kubernetes.default.svc.cluster.local"
    ∷ "kubernetes" ∷ []

-- The loop over the dangerous hosts.
pub is_dangerous : String → List String → Bool
unfolding has_suffix
is_dangerous host [] = false
is_dangerous host (d ∷ ds) =
    let rest = is_dangerous host ds in
    if str_eq host d || has_suffix host (String.◌∷◌ "." d) then true else rest

-- `strings.TrimPrefix`, where the text has the prefix.
pub strip_prefix : String → String → Option String
strip_prefix String.[] s = some s
strip_prefix (String.◌∷◌ c p) String.[] = none
strip_prefix (String.◌∷◌ c p) (String.◌∷◌ d s) =
    let rest = strip_prefix p s in if code c == code d then rest else none

abbrev pub trim_www : String → String
trim_www host = elim (strip_prefix "www." host) [ none ↦ host | some s ↦ s ]

abbrev pub with_www : String → String
with_www host = String.◌∷◌ "w" (String.◌∷◌ "w" (String.◌∷◌ "w" (String.◌∷◌ "." host)))

-- `checkAllowlist`
pub check_allowlist : List String → String → Bool
unfolding is_member strip_prefix
check_allowlist [] host = true
check_allowlist (h ∷ hs) host =
    is_member host (h ∷ hs)
    || (is_member (with_www host) (h ∷ hs) || is_member (trim_www host) (h ∷ hs))

abbrev pub blocked_ports : List String
blocked_ports =
    "22" ∷ "23" ∷ "25" ∷ "110" ∷ "135" ∷ "139" ∷ "445" ∷ "1433" ∷ "3306" ∷ "3389" ∷ "5432" ∷ "5900"
    ∷ "6379" ∷ "8080" ∷ "8081" ∷ "9200" ∷ "11211" ∷ "27017" ∷ []

-- `validatePort`
pub validate_port : String → Bool
unfolding is_member
validate_port port = str_eq port "" || not (is_member port blocked_ports)

-- `DNSCache.get`
pub cache_get : ℕ → ℕ → String → Dict DnsCacheEntry → Option (List Ip)
cache_get now ttl host cache = elim (lookup host cache) [
  | none ↦ none
  | some e ↦ if ltb ttl (now - e.timestamp) then none else some e.ips
]

-- `resolveDNS`; the resolver gives addresses or an error. The result, and the cache.
pub resolve_dns :
    ℕ → Option (List Ip) → String → UrlValidator → Option (List Ip) × Dict DnsCacheEntry
unfolding cache_get
resolve_dns now answer host v = elim (cache_get now v.ttl host v.cache) [
  | some ips ↦ (some ips, v.cache)
  | none ↦ elim answer [
    | none ↦ (none, v.cache)
    | some [] ↦ (none, v.cache)
    | some (ip ∷ ips) ↦
        (some (ip ∷ ips), insert host (record { ips = ip ∷ ips; timestamp = now }) v.cache)
  ]
]

-- The loop over the resolved addresses.
pub validate_ips : List Ip → Bool
validate_ips [] = true
validate_ips (ip ∷ ips) = let rest = validate_ips ips in if validate_ip ip then rest else false

module _ (parse_ip : String → Option Ip) where
  -- `validateHost`
  pub validate_host : String → Option UrlError
  unfolding is_dangerous
  validate_host host =
      if str_eq host ""
      then some empty_host
      else if is_dangerous host dangerous_hosts
      then some dangerous_host
      else elim (parse_ip host) [
        | none ↦ none
        | some ip ↦ if validate_ip ip then none else some blocked_ip
      ]

  -- Steps 4 to 6 of `Validate`.
  pub validate_resolved :
      ℕ → Option (List Ip) → ParsedUrl → UrlValidator → Option UrlError × UrlValidator
  unfolding resolve_dns validate_ips validate_port
  validate_resolved now answer u v =
      let (result, cache) = resolve_dns now answer u.host v in
      let v' = record v { cache = cache } in
      elim result [
        | none ↦ (some dns_failed, v')
        | some ips ↦
            if validate_ips ips
            then (if validate_port u.port then none else some blocked_port, v')
            else (some blocked_ip, v')
      ]

  -- `Validate` of a text that is empty, or no URL, or one: the error, and the validator with its
  -- cache.
  pub validate :
      ℕ → Option (List Ip) → Bool → Option ParsedUrl → UrlValidator → Option UrlError × UrlValidator
  unfolding validate_resolved validate_host validate_scheme check_allowlist
  validate now answer is_empty parsed v = if is_empty then (some empty_url, v) else elim parsed [
    | none ↦ (some invalid_url, v)
    | some u ↦
        if validate_scheme v.allow_http u.scheme
        then elim (validate_host u.host) [
          | some e ↦ (some e, v)
          | none ↦
              if check_allowlist v.allowed_hosts u.host
              then validate_resolved now answer u v
              else (some not_allowed, v)
        ]
        else (some invalid_scheme, v)
  ]

  -- `ValidateWithDNSRebindingProtection` of a URL, with the times and the resolver's answers of both
  -- validations.
  pub validate_twice :
      ℕ
      → Option (List Ip)
      → ℕ
      → Option (List Ip)
      → ParsedUrl
      → UrlValidator
      → Option UrlError × UrlValidator
  unfolding validate
  validate_twice now answer now' answer' u v =
      let (result, v') = validate now answer false (some u) v in
      elim result [
        | some e ↦ (some e, v')
        | none ↦ validate now' answer' false (some u) (record v' { cache = erase u.host v'.cache })
      ]

-- `CleanupCache`
pub cleanup_cache : ℕ → ℕ → Dict DnsCacheEntry → Dict DnsCacheEntry
cleanup_cache now ttl [] = []
cleanup_cache now ttl (e ∷ cache) =
    let rest = cleanup_cache now ttl cache in
    if ltb ttl (now - e.1.timestamp) then rest else e ∷ rest
