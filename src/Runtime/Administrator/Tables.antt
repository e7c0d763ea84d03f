-- ===== src/Runtime/Administrator/Tables.antt =====
-- rust-server/src/storage.rs: the tables `administrator_credential`, with at most one row, and
-- `administrator_sessions`, whose key is the token's digest. `runs` says which queries the database
-- carries out; one that it does not is an error that changes nothing.
use parlando.Common.{
  ℕ, ◌+◌, Bool, true, false, ◌||◌, not, Option, none, some, String, eq_String, Map, lookup, insert,
  remove, retain_values, leb, if◌then◌else◌, is_some,
}

pub data Result (A : Type 0) : Type 0 where
  ok : A → Result A
  err : String → Result A

pub record StoredAdminCredential : Type 0 where
  pub username : String
  pub password_hash : String
  pub role : String

pub record StoredAdminSession : Type 0 where
  pub token_digest : String
  pub role : String
  pub csrf_token : String
  pub created_at : ℕ
  pub last_seen_at : ℕ

pub record Store : Type 0 where
  pub credential : Option StoredAdminCredential
  pub sessions : Map String StoredAdminSession

abbrev pub M : Type 0 → Type 0
M A = Store → Result A × Store

abbrev pub and_then : {A B : Type 0} → Result A × Store → (A → M B) → Result B × Store
and_then (ok x, store) f = f x store
and_then (err error, store) f = (err error, store)

infixl 5 ◌>>=◌ ◌>>◌
abbrev pub ◌>>=◌ : {A B : Type 0} → M A → (A → M B) → M B
◌>>=◌ m f store = and_then (m store) f

abbrev pub ◌>>◌ : {B : Type 0} → M (Unit {0}) → M B → M B
m >> k = m >>= λ _. k

abbrev pub pure : {A : Type 0} → A → M A
pure x store = (ok x, store)

abbrev pub fail : {A : Type 0} → String → M A
fail error store = (err error, store)

pub data Query : Type 0 where
  select_credential insert_credential insert_session select_session update_session : Query
  delete_session delete_expired : Query

module _ (runs : Query → Bool) where
  abbrev pub executed : {A : Type 0} → Query → M A → M A
  executed query m store = if runs query then m store else (err "database error", store)

  unfoldable pub admin_credential : M (Option StoredAdminCredential)
  admin_credential = executed select_credential (λ store. (ok store.credential, store))

  -- `on conflict(singleton) do nothing`
  unfoldable pub create_admin_credential : StoredAdminCredential → M Bool
  create_admin_credential credential = executed insert_credential (λ store.
      if is_some store.credential
      then (ok false, store)
      else (ok true, record store { credential = some credential }))

  -- A digest that is taken violates the primary key.
  unfoldable pub save_admin_session : StoredAdminSession → M (Unit {0})
  save_admin_session session = executed insert_session (λ store.
      if is_some (lookup session.token_digest store.sessions)
      then (err "UNIQUE constraint failed", store)
      else (ok tt, record store { sessions = insert session.token_digest session store.sessions }))

  unfoldable pub admin_session : String → M (Option StoredAdminSession)
  admin_session token_digest =
      executed select_session (λ store. (ok (lookup token_digest store.sessions), store))

  abbrev pub touched :
      String
      → ℕ
      → Map String StoredAdminSession
      → Option StoredAdminSession
      → Map String StoredAdminSession
  touched token_digest last_seen_at sessions none = sessions
  touched token_digest last_seen_at sessions (some session) =
      insert token_digest (record session { last_seen_at = last_seen_at }) sessions

  unfoldable pub touch_admin_session : String → ℕ → M (Unit {0})
  touch_admin_session token_digest last_seen_at = executed update_session (λ store. (
    ok tt,
    record store {
      sessions =
          touched token_digest last_seen_at store.sessions (lookup token_digest store.sessions);
    },
  ))

  unfoldable pub delete_admin_session : String → M (Unit {0})
  delete_admin_session token_digest =
      executed delete_session
        (λ store. (ok tt, record store { sessions = remove token_digest store.sessions }))

  abbrev pub outlives : ℕ → ℕ → ℕ → StoredAdminSession → Bool
  outlives idle absolute now session =
      not (leb (session.last_seen_at + idle) now || leb (session.created_at + absolute) now)

  -- The two bounds are the present time less `idle` and less `absolute`.
  unfoldable pub delete_expired_admin_sessions : ℕ → ℕ → ℕ → M (Unit {0})
  delete_expired_admin_sessions idle absolute now = executed delete_expired (λ store. (
    ok tt,
    record store { sessions = retain_values (outlives idle absolute now) store.sessions },
  ))
