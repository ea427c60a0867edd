-- ===== src/Oms/Interceptor/Revocations.antt =====
-- RevokeToken and cleanupExpiredTokens of auth.go, on the two sets and the keys of Redis. The key
-- `revoked_token:<jti>` goes by its jti. Times are nanoseconds.
use aipx.Prelude.{
  ℕ, zero, suc, ◌+◌, String, str_eq, Bool, true, false, ◌||◌, Option, none, some, List, [], ◌∷◌,
  if◌then◌else◌, ltb,
}
use aipx.Prelude.Dict.{Dict, lookup, insert}

-- A key is kept with the moment at which it ends; none is never.
pub record Redis : Type 0 where
  pub revoked_tokens : List String
  pub blocked_users : List String
  pub revoked_keys : Dict (Option ℕ)

-- `SIsMember`
unfoldable pub is_member : String → List String → Bool
is_member k [] = false
is_member k (x ∷ xs) = str_eq k x || is_member k xs

-- `SAdd`
unfoldable pub add_member : String → List String → List String
unfolding is_member
add_member k xs = if is_member k xs then xs else k ∷ xs

-- `SRem`
unfoldable pub remove_member : String → List String → List String
remove_member k [] = []
remove_member k (x ∷ xs) = let rest = remove_member k xs in if str_eq k x then rest else x ∷ rest

-- `Exists`, at a moment.
abbrev pub lives : ℕ → Option (Option ℕ) → Bool
lives now none = false
lives now (some none) = true
lives now (some (some ending)) = ltb now ending

-- The end of a key that is set with this expiration, of which zero is none.
abbrev pub end_of : ℕ → ℕ → Option ℕ
end_of now zero = none
end_of now (suc d) = some (now + suc d)

abbrev pub sadd_revoked : String → Redis → Redis
sadd_revoked jti r = record r { revoked_tokens = add_member jti r.revoked_tokens }

abbrev pub set_key : ℕ → String → ℕ → Redis → Redis
set_key now jti expiration r = record r {
  revoked_keys = insert jti (end_of now expiration) r.revoked_keys;
}

abbrev pub srem_revoked : String → Redis → Redis
srem_revoked jti r = record r { revoked_tokens = remove_member jti r.revoked_tokens }

-- `RevokeToken`, up to the start of the cleanup; whether it returns no error. `adds` and `sets` tell
-- whether Redis does what it is asked for.
unfoldable pub revoke_token :
    (adds sets : Bool) → ℕ → String → ℕ → Option Redis → Bool × Option Redis
unfolding add_member
revoke_token adds sets now jti expiration none = (true, none)
revoke_token adds sets now jti expiration (some r) =
    if adds
    then if sets
      then (true, some (set_key now jti expiration (sadd_revoked jti r)))
      else (false, some (sadd_revoked jti r))
    else (false, some r)

-- How Redis answers one cleanup, by the number of the jti: `Exists`, `SRem`; and what others do to it
-- between the two.
pub record Cleaning : Type 0 where
  pub lists : Bool
  pub checks : ℕ → Bool
  pub removes : ℕ → Bool
  pub meanwhile : ℕ → Redis → Redis

unfoldable pub cleanup_one : Cleaning → ℕ → ℕ → String → Redis → Redis
unfolding remove_member
cleanup_one w now i jti r =
    if w.checks i
    then if lives now (lookup jti r.revoked_keys)
      then w.meanwhile i r
      else if w.removes i
      then srem_revoked jti (w.meanwhile i r)
      else w.meanwhile i r
    else w.meanwhile i r

unfoldable pub cleanup_loop : Cleaning → ℕ → ℕ → List String → Redis → Redis
unfolding cleanup_one
cleanup_loop w now i [] r = r
cleanup_loop w now i (jti ∷ jtis) r = cleanup_loop w now (suc i) jtis (cleanup_one w now i jti r)

-- `cleanupExpiredTokens`
unfoldable pub cleanup_expired_tokens : Cleaning → ℕ → Option Redis → Option Redis
unfolding cleanup_loop
cleanup_expired_tokens w now none = none
cleanup_expired_tokens w now (some r) =
    if w.lists then some (cleanup_loop w now 0 r.revoked_tokens r) else some r
