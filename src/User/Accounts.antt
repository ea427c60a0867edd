-- ===== src/User/Accounts.antt =====
-- services/user-service/internal/models/models.go and internal/repository/user_repo.go: the users.
-- An id and a time that the database makes are arguments. Times are Unix nanoseconds.
use aipx.Prelude.{
  ℕ, String, str_eq, Bool, false, ◌&&◌, ◌||◌, not, Option, none, some, List, [], ◌∷◌, ◌++◌,
  if◌then◌else◌,
}
use aipx.User.Rows.{find, update_where, is_some}

pub record User : Type 0 where
  pub id : String
  pub email : String
  pub password_hash : String
  pub name : String
  pub is_active : Bool
  pub email_verified : Bool
  pub created_at : ℕ
  pub updated_at : ℕ

pub record UserResponse : Type 0 where
  pub id : String
  pub email : String
  pub name : String
  pub is_active : Bool
  pub email_verified : Bool
  pub created_at : ℕ
  pub updated_at : ℕ

-- `ToResponse`
pub to_response : User → UserResponse
to_response u = record {
  id = u.id;
  email = u.email;
  name = u.name;
  is_active = u.is_active;
  email_verified = u.email_verified;
  created_at = u.created_at;
  updated_at = u.updated_at;
}

pub data UserResult : Type 0 where
  user_found : User → UserResult
  user_missing user_failed : UserResult

-- What a statement that writes ends with.
pub data WriteResult : Type 0 where
  written no_row write_failed : WriteResult

abbrev pub found_or_missing : Option User → UserResult
found_or_missing none = user_missing
found_or_missing (some u) = user_found u

abbrev pub has_id : String → User → Bool
has_id id u = str_eq u.id id

abbrev pub has_email : String → User → Bool
has_email email u = str_eq u.email email

-- WHERE id = $1 AND is_active = true
abbrev pub is_live : String → User → Bool
is_live id u = str_eq u.id id && u.is_active

-- `GetUserByID`; the flag tells whether the statement reaches the database.
unfoldable pub get_user_by_id : Bool → String → List User → UserResult
get_user_by_id up id users = if up then found_or_missing (find (is_live id) users) else user_failed

-- `GetUserByEmail`
unfoldable pub get_user_by_email : Bool → String → List User → UserResult
get_user_by_email up email users =
    if up then found_or_missing (find (has_email email) users) else user_failed

-- `CreateUser`: neither the id nor the email may be taken. Whatever the database refuses comes out
-- as the same failure, since the driver's message never equals "SQLSTATE 23505". The flag is false
-- too where the form of the email makes the database refuse the row.
unfoldable pub create_user : Bool → ℕ → String → User → List User → WriteResult × User × List User
create_user up now new_id u users =
    let row = record u { id = new_id; created_at = now; updated_at = now } in
    if up && not (is_some (find (has_id new_id) users) || is_some (find (has_email u.email) users))
    then (written, row, users ++ row ∷ [])
    else (write_failed, u, users)

-- An `UPDATE` of the active user of this id, with its `updated_at`.
pub update_live : Bool → ℕ → String → (User → User) → List User → WriteResult × List User
update_live up now id f users =
    if up
    then (
      if is_some (find (is_live id) users) then written else no_row,
      update_where (is_live id) (λ u. record (f u) { updated_at = now }) users,
    )
    else (write_failed, users)

-- `DeleteUser`
unfoldable pub delete_user : Bool → ℕ → String → List User → WriteResult × List User
unfolding update_live
delete_user up now id users = update_live up now id (λ u. record u { is_active = false }) users

-- `UpdateEmailVerified`
pub update_email_verified : Bool → ℕ → String → Bool → List User → WriteResult × List User
unfolding update_live
update_email_verified up now id verified users =
    update_live up now id (λ u. record u { email_verified = verified }) users

-- `UpdatePassword`
pub update_password : Bool → ℕ → String → String → List User → WriteResult × List User
unfolding update_live
update_password up now id password_hash users =
    update_live up now id (λ u. record u { password_hash = password_hash }) users

-- Another user has the email.
abbrev pub is_taken_by_other : String → String → User → Bool
is_taken_by_other email id x = str_eq x.email email && not (str_eq x.id id)

-- `UpdateUser`: the email is UNIQUE, which counts only where there is a row to update.
pub update_user : Bool → ℕ → User → List User → WriteResult × List User
unfolding update_live
update_user up now u users =
    if is_some (find (is_live u.id) users) && is_some (find (is_taken_by_other u.email u.id) users)
    then (write_failed, users)
    else update_live up now u.id
        (λ x. record x { email = u.email; name = u.name; email_verified = u.email_verified }) users
