-- ===== src/Runtime/Administrator.antt =====
-- rust-server/src/auth.rs: `AdminAuthenticator`, with the tables of storage.rs that it works on. The
-- password hashing of the crate `argon2`, the digests, `str::trim` and the tokens that the random
-- source draws are parameters. Times are seconds since 1970, given to each call; where the source
-- subtracts a constant from the present time, the constant is added on the other side.
pub mod Tables
pub mod Laws
pub mod Setup
use Prim.Native.String.{len}
use parlando.Common.{
  ℕ, ◌+◌, ◌*◌, eq_ℕ, Bool, true, false, ◌&&◌, ◌||◌, not, Option, none, some, String, eq_String,
  ◌==◌, ltb, leb, if◌then◌else◌, is_some,
}
use parlando.Runtime.Administrator.Tables.{
  Result, ok, err, M, ◌>>=◌, ◌>>◌, pure, fail, Query, Store, StoredAdminCredential,
  StoredAdminSession, admin_credential, create_admin_credential, save_admin_session, admin_session,
  touch_admin_session, delete_admin_session, delete_expired_admin_sessions,
}

pub data AdminRole : Type 0 where
  operator administrator : AdminRole

unfoldable pub parse : String → Result AdminRole
parse value =
    if value == "operator"
    then ok operator
    else if value == "administrator"
    then ok administrator
    else err "administrator role must be operator or administrator"

unfoldable pub may_mutate_experiments : AdminRole → Bool
may_mutate_experiments operator = false
may_mutate_experiments administrator = true

unfoldable pub as_str : AdminRole → String
as_str operator = "operator"
as_str administrator = "administrator"

pub record AdminCredential : Type 0 where
  pub username : String
  pub password_hash : String
  pub role : AdminRole

pub record AdminSession : Type 0 where
  pub role : AdminRole
  pub csrf_token : String
  pub created_at : ℕ
  pub last_seen_at : ℕ

pub data AdminLoginResult : Type 0 where
  authenticated : (token : String) → AdminSession → AdminLoginResult
  invalid busy : AdminLoginResult

abbrev pub admin_idle_seconds : ℕ
admin_idle_seconds = 7 * 24 * 60 * 60

abbrev pub admin_absolute_seconds : ℕ
admin_absolute_seconds = 30 * 24 * 60 * 60

abbrev pub admin_touch_seconds : ℕ
admin_touch_seconds = 5 * 60

-- `algorithm` is that of a hash in PHC form, if the text is one; `hash_password` may fail.
pub record Crypto : Type 0 where
  pub trim : String → String
  pub algorithm : String → Option String
  pub hash_password : (password salt : String) → Option String
  pub verify_password : (password hash : String) → Bool
  pub comparison_digest : String → String
  pub administrator_token_digest : String → String

abbrev pub lift : {A : Type 0} → Result A → M A
lift (ok x) = pure x
lift (err error) = fail error

module _ (crypto : Crypto) where
  abbrev pub is_argon2id : Option String → Bool
  is_argon2id none = false
  is_argon2id (some name) = name == "argon2id"

  unfoldable pub validated_credential : String → String → AdminRole → Result AdminCredential
  validated_credential username password_hash role =
      if is_argon2id (crypto.algorithm password_hash)
      then ok (record { username = username; password_hash = password_hash; role = role })
      else err "administrator password hash must use Argon2id"

  abbrev pub credential_with : StoredAdminCredential → Result AdminRole → Result AdminCredential
  credential_with stored (err error) = err error
  credential_with stored (ok role) = validated_credential stored.username stored.password_hash role

  unfoldable pub credential_from_stored : StoredAdminCredential → Result AdminCredential
  unfolding validated_credential
  credential_from_stored stored = credential_with stored (parse stored.role)

  -- The authenticator's own slot is passed in and out, in place of its lock.
  module _ (runs : Query → Bool) where
    abbrev pub Slot : Type 0
    Slot = Option AdminCredential

    abbrev pub loaded : Option StoredAdminCredential → M Slot
    loaded none = pure none
    loaded (some stored) = do
      credential ← lift (credential_from_stored stored)
      pure (some credential)

    unfoldable pub load : M Slot
    load = do stored ← admin_credential runs; loaded stored

    abbrev pub stored_first : String → String → StoredAdminCredential
    stored_first username password_hash = record {
      username = username;
      password_hash = password_hash;
      role = as_str administrator;
    }

    abbrev pub after_create : StoredAdminCredential → Slot → Bool → M (Bool × Slot)
    after_create stored slot false = pure (false, slot)
    after_create stored slot true = do
      credential ← lift (credential_from_stored stored)
      pure (true, some credential)

    abbrev pub setup_hashed : String → Slot → Option String → M (Bool × Slot)
    setup_hashed username slot none = fail "failed to hash administrator password"
    setup_hashed username slot (some password_hash) = do
      inserted ← create_admin_credential runs (stored_first username password_hash)
      after_create (stored_first username password_hash) slot inserted

    -- `setup`: whether it created the administrator, and the authenticator's new slot.
    unfoldable pub setup : String → String → String → Slot → M (Bool × Slot)
    setup username password salt slot =
        let name = crypto.trim username in
        if len name == 0 || ltb 128 (len name)
        then fail "administrator username must contain 1 to 128 characters"
        else if ltb (len password) 12 || ltb 1024 (len password)
        then fail "administrator password must contain 12 to 1024 characters"
        else if is_some slot
        then pure (false, slot)
        else setup_hashed name slot (crypto.hash_password password salt)

    abbrev pub new_session : AdminRole → String → ℕ → AdminSession
    new_session role csrf_token now = record {
      role = role;
      csrf_token = csrf_token;
      created_at = now;
      last_seen_at = now;
    }

    abbrev pub stored_session : String → AdminSession → StoredAdminSession
    stored_session token session = record {
      token_digest = crypto.administrator_token_digest token;
      role = as_str session.role;
      csrf_token = session.csrf_token;
      created_at = session.created_at;
      last_seen_at = session.last_seen_at;
    }

    abbrev pub begin_session : AdminSession → String → M AdminLoginResult
    begin_session session token = do
      save_admin_session runs (stored_session token session)
      pure (authenticated token session)

    abbrev pub login_verified :
        AdminCredential → String → String → String → String → ℕ → M AdminLoginResult
    login_verified credential username password token csrf_token now =
        if (crypto.comparison_digest username == crypto.comparison_digest credential.username)
          && crypto.verify_password password credential.password_hash
        then begin_session (new_session credential.role csrf_token now) token
        else pure invalid

    abbrev pub login_with : Slot → String → String → String → String → ℕ → M AdminLoginResult
    login_with none username password token csrf_token now = pure invalid
    login_with (some credential) username password token csrf_token now =
        if is_some (crypto.algorithm credential.password_hash)
        then login_verified credential username password token csrf_token now
        else fail "administrator password hash is invalid"

    -- `login`, while `logins` others hold a slot, with the tokens that it draws.
    unfoldable pub login : ℕ → Slot → String → String → String → String → ℕ → M AdminLoginResult
    login logins slot username password token csrf_token now =
        if leb 2 logins then pure busy else login_with slot username password token csrf_token now

    abbrev pub is_expired : StoredAdminSession → ℕ → Bool
    is_expired stored now =
        leb (stored.last_seen_at + admin_idle_seconds) now
        || leb (stored.created_at + admin_absolute_seconds) now

    abbrev pub refresh : StoredAdminSession → String → ℕ → M (Unit {0})
    refresh stored digest now =
        if leb (stored.last_seen_at + admin_touch_seconds) now
        then touch_admin_session runs digest now
        else pure tt

    abbrev pub current : StoredAdminSession → ℕ → AdminRole → AdminSession
    current stored now role = record {
      role = role;
      csrf_token = stored.csrf_token;
      created_at = stored.created_at;
      last_seen_at = now;
    }

    abbrev pub authenticate_stored :
        String → ℕ → Option StoredAdminSession → M (Option AdminSession)
    authenticate_stored digest now none = pure none
    authenticate_stored digest now (some stored) =
        if is_expired stored now then (do delete_admin_session runs digest; pure none) else (do
          refresh stored digest now
          role ← lift (parse stored.role)
          pure (some (current stored now role)))

    unfoldable pub authenticate : String → ℕ → M (Option AdminSession)
    authenticate token now =
        let digest = crypto.administrator_token_digest token in
        do stored ← admin_session runs digest; authenticate_stored digest now stored

    unfoldable pub logout : String → M (Unit {0})
    logout token = delete_admin_session runs (crypto.administrator_token_digest token)

    unfoldable pub cleanup : ℕ → M (Unit {0})
    cleanup now = delete_expired_admin_sessions runs admin_idle_seconds admin_absolute_seconds now
