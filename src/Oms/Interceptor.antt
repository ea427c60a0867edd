-- ===== src/Oms/Interceptor.antt =====
-- services/order-management-service/internal/grpc/interceptors/auth.go: which calls reach a handler,
-- and for which user. jwt.Parse is a parameter, `parse`; the sets and the keys of Redis are those of
-- Revocations. A claim that is missing or of another type is none; a time claim is the integer that
-- the source makes of its float, in seconds, and the clock is in nanoseconds.
pub mod Revocations
pub mod Bearer
pub mod Granted
pub mod Accepted
pub mod Members
pub mod Revoked
mod Tests
use aipx.Prelude.{
  ℕ, ◌+◌, ◌-◌, ◌*◌, ◌<◌, String, str_eq, Bool, true, false, ◌&&◌, ◌||◌, Option, none, some, List,
  [], ◌∷◌, if◌then◌else◌, ltb, leb, ◌==◌,
}
use aipx.Prelude.Int.{ℤ, pos, negsuc}
use aipx.Prelude.Text.{Text, codes}
use aipx.Oms.Interceptor.Revocations.{Redis, is_member}

pub record Claims : Type 0 where
  pub exp : Option ℤ
  pub nbf : Option ℤ
  pub iat : Option ℤ
  pub iss : Option String
  pub aud : Option String
  pub sub : Option String
  pub jti : Option String

-- The signing method of a token, as the key function sees it.
pub record SigningMethod : Type 0 where
  pub is_hmac : Bool
  pub alg : String

-- `AuthInterceptor`; its secret has the type `K`, its client of Redis may be nil.
pub record AuthInterceptor (K : Type 0) : Type 0 where
  pub jwt_secret : K
  pub expected_iss : String
  pub expected_aud : String
  pub redis_client : Option Redis

pub data AuthError : Type 0 where
  missing_metadata missing_header invalid_format invalid_token missing_expiration token_expired
        not_yet_valid issued_in_the_future invalid_issuer invalid_audience missing_subject
        token_revoked user_blocked :
      AuthError

pub data Validated : Type 0 where
  valid : String → Validated
  invalid : AuthError → Validated

-- The context of a call: the values of `authorization` in its metadata, where it has metadata, and
-- the value under `userIDKey`.
pub record Context : Type 0 where
  pub authorization : Option (List Text)
  pub user_id : Option String

-- What one call meets: the time, and which of the two questions Redis answers.
pub record CallEnv : Type 0 where
  pub now : ℕ
  pub answers_revoked : Bool
  pub answers_blocked : Bool

-- `publicMethods[m]`
abbrev pub is_public : String → Bool
is_public m =
    str_eq m "/grpc.health.v1.Health/Check"
    || str_eq m "/grpc.health.v1.Health/Watch"
    || str_eq m "/grpc.reflection.v1alpha.ServerReflection/ServerReflectionInfo"

-- `strings.SplitN(t, " ", 2)`: what stands before and after the first space.
unfoldable pub split_space : Text → Option (Text × Text)
split_space [] = none
split_space (c ∷ cs) =
    let rest = split_space cs in
    if c == b' ' then some ([], cs) else elim rest [ none ↦ none | some p ↦ some (c ∷ p.0, p.1) ]

abbrev pub lower : ℕ → ℕ
lower c = if leb b'A' c && leb c b'Z' then c + 32 else c

-- `strings.EqualFold`, where one of the texts has the letters of `bearer` only, none of which is
-- equal, but for its case, to one outside ASCII.
abbrev pub equal_fold : Text → Text → Bool
equal_fold [] [] = true
equal_fold (a ∷ xs) (b ∷ ys) = lower a == lower b && equal_fold xs ys
equal_fold [] (b ∷ ys) = false
equal_fold (a ∷ xs) [] = false

-- The token of a header.
unfoldable pub bearer_token : Text → Option Text
unfolding split_space
bearer_token header = elim (split_space header) [
  | none ↦ none
  | some p ↦ if equal_fold p.0 (codes "bearer") then some p.1 else none
]

-- `time.Unix(s, 0).Before(now)` and `time.Unix(s, 0).After(now)`
abbrev pub is_before : ℤ → ℕ → Bool
is_before (pos s) now = ltb (s * 1000000000) now
is_before (negsuc s) now = true

abbrev pub is_after : ℤ → ℕ → Bool
is_after (pos s) now = ltb now (s * 1000000000)
is_after (negsuc s) now = false

abbrev pub is_some_after : Option ℤ → ℕ → Bool
is_some_after none now = false
is_some_after (some s) now = is_after s now

abbrev pub clock_skew : ℕ
clock_skew = 5 * 60 * 1000000000

abbrev pub is_value : Option String → String → Bool
is_value none s = false
is_value (some t) s = str_eq t s

-- `exp`, `nbf` and `iat`
unfoldable pub check_times : ℕ → Claims → Option AuthError
check_times now c = elim c.exp [
  | none ↦ some missing_expiration
  | some e ↦
      if is_before e now
      then some token_expired
      else if is_some_after c.nbf now
      then some not_yet_valid
      else if is_some_after c.iat (now + clock_skew)
      then some issued_in_the_future
      else none
]

-- `isTokenRevoked` and `isUserBlocked`; none is an error.
abbrev pub is_token_revoked : Option Redis → Bool → String → Option Bool
is_token_revoked none up jti = some false
is_token_revoked (some r) up jti = if up then some (is_member jti r.revoked_tokens) else none

abbrev pub is_user_blocked : Option Redis → Bool → String → Option Bool
is_user_blocked none up user = some false
is_user_blocked (some r) up user = if up then some (is_member user r.blocked_users) else none

-- An answer that is an error passes.
abbrev pub says_so : Option Bool → Bool
says_so none = false
says_so (some b) = b

abbrev pub check_jti : Option Redis → Bool → Option String → Bool
check_jti r up none = false
check_jti r up (some jti) = if str_eq jti "" then false else says_so (is_token_revoked r up jti)

module _ {K : Type 0} (parse : (SigningMethod → Option K) → Text → Option Claims) where
  -- The key function of `jwt.Parse`.
  abbrev pub key_of : K → SigningMethod → Option K
  key_of secret m = if m.is_hmac && str_eq m.alg "HS256" then some secret else none

  -- The claims of a token that was parsed.
  unfoldable pub validate_claims : AuthInterceptor K → CallEnv → Claims → Validated
  unfolding check_times
  validate_claims i env c = elim (check_times env.now c) [
    | some e ↦ invalid e
    | none ↦
        if is_value c.iss i.expected_iss
        then if is_value c.aud i.expected_aud
          then elim c.sub [
            | none ↦ invalid missing_subject
            | some user ↦
                if str_eq user ""
                then invalid missing_subject
                else if check_jti i.redis_client env.answers_revoked c.jti
                then invalid token_revoked
                else if says_so (is_user_blocked i.redis_client env.answers_blocked user)
                then invalid user_blocked
                else valid user
          ]
          else invalid invalid_audience
        else invalid invalid_issuer
  ]

  -- `validateToken`
  unfoldable pub validate_token : AuthInterceptor K → CallEnv → Context → Validated
  unfolding bearer_token validate_claims
  validate_token i env ctx = elim ctx.authorization [
    | none ↦ invalid missing_metadata
    | some [] ↦ invalid missing_header
    | some (header ∷ _) ↦ elim (bearer_token header) [
      | none ↦ invalid invalid_format
      | some token ↦ elim (parse (key_of i.jwt_secret) token) [
        | none ↦ invalid invalid_token
        | some claims ↦ validate_claims i env claims
      ]
    ]
  ]

  -- `Unary` and `Stream`: the context with which the handler runs, or the error.
  unfoldable pub intercept :
      AuthInterceptor K → CallEnv → String → Context → Option AuthError × Option Context
  unfolding validate_token
  intercept i env full_method ctx =
      if is_public full_method then (none, some ctx) else elim (validate_token i env ctx) [
        | invalid e ↦ (some e, none)
        | valid user ↦ (none, some (record ctx { user_id = some user }))
      ]
