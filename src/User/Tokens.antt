-- ===== src/User/Tokens.antt =====
-- services/user-service/internal/repository/token_repo.go: the refresh tokens, with the constraints
-- of migrations/001_users.sql.
use aipx.Prelude.{
  ℕ, ◌-◌, String, str_eq, Bool, true, false, ◌&&◌, not, Option, none, some, List, [], ◌∷◌, ◌++◌,
  if◌then◌else◌, ltb,
}
use aipx.User.Rows.{find, update_where, delete_where, is_some}
use aipx.User.Accounts.{WriteResult, written, no_row, write_failed}

pub record RefreshToken : Type 0 where
  pub id : String
  pub user_id : String
  pub token_hash : String
  pub expires_at : ℕ
  pub created_at : ℕ
  pub revoked_at : Option ℕ
  pub ip_address : String
  pub user_agent : String

pub data TokenResult : Type 0 where
  token_found : RefreshToken → TokenResult
  token_missing token_expired token_revoked token_failed : TokenResult

-- `IsExpired`
abbrev pub is_expired : ℕ → RefreshToken → Bool
is_expired now t = ltb t.expires_at now

-- `IsRevoked`
abbrev pub is_revoked : RefreshToken → Bool
is_revoked t = elim t.revoked_at [ none ↦ false | some at ↦ true ]

abbrev pub has_hash : String → RefreshToken → Bool
has_hash hash t = str_eq t.token_hash hash

abbrev pub has_token_id : String → RefreshToken → Bool
has_token_id id t = str_eq t.id id

-- The tests on a row that was read.
abbrev pub check_token : ℕ → Option RefreshToken → TokenResult
check_token now none = token_missing
check_token now (some t) =
    if is_expired now t
    then token_expired
    else if is_revoked t
    then token_revoked
    else token_found t

-- `GetRefreshTokenByHash`
unfoldable pub get_refresh_token_by_hash : Bool → ℕ → String → List RefreshToken → TokenResult
get_refresh_token_by_hash up now hash ts =
    if up then check_token now (find (has_hash hash) ts) else token_failed

-- `GetRefreshToken`
pub get_refresh_token : Bool → ℕ → String → List RefreshToken → TokenResult
get_refresh_token up now id ts =
    if up then check_token now (find (has_token_id id) ts) else token_failed

-- `CreateRefreshToken`: the hash is UNIQUE, and CHECK (expires_at > created_at). The flag is false
-- too where the user's row or the form of the address makes the database refuse the row.
unfoldable pub create_refresh_token :
    Bool → ℕ → String → RefreshToken → List RefreshToken → WriteResult × List RefreshToken
create_refresh_token up now new_id t ts =
    let row = record t { id = new_id; created_at = now; revoked_at = none } in
    if up && (ltb now t.expires_at && not (is_some (find (has_hash t.token_hash) ts)))
    then (written, ts ++ row ∷ [])
    else (write_failed, ts)

-- The row with its `revoked_at`.
abbrev pub revoked : ℕ → RefreshToken → RefreshToken
revoked now t = record t { revoked_at = some now }

-- `RevokeToken`
unfoldable pub revoke_token :
    Bool → ℕ → String → List RefreshToken → WriteResult × List RefreshToken
revoke_token up now id ts =
    let test = λ (t : RefreshToken). str_eq t.id id && not (is_revoked t) in
    if up
    then (if is_some (find test ts) then written else no_row, update_where test (revoked now) ts)
    else (write_failed, ts)

-- `RevokeUserTokens`
unfoldable pub revoke_user_tokens :
    Bool → ℕ → String → List RefreshToken → WriteResult × List RefreshToken
revoke_user_tokens up now user_id ts =
    if up
    then (
      written,
      update_where (λ (t : RefreshToken). str_eq t.user_id user_id && not (is_revoked t))
          (revoked now) ts,
    )
    else (write_failed, ts)

-- `DeleteExpiredTokens`
unfoldable pub delete_expired_tokens :
    Bool → ℕ → ℕ → List RefreshToken → WriteResult × List RefreshToken
delete_expired_tokens up now older_than ts =
    if up
    then (written, delete_where (λ (t : RefreshToken). ltb t.expires_at (now - older_than)) ts)
    else (write_failed, ts)
