-- ===== src/Runtime/Examples/Administrators.antt =====
-- auth.rs: one administrator, on whom the theorems are used.
use text.Mathlib.TextEquality.{eq_iff}
use parlando.Common.{
  ◌≡◌, ◌↔◌, refl, Bool, true, [], ◌∷◌, Option, none, some, arith, lookup, HasUniqueKeys, insert,
  eq_String,
}
use parlando.Runtime.Administrator.Tables.{
  Result, ok, err, Query, Store, save_admin_session, create_admin_credential, admin_session,
  touch_admin_session,
}
use parlando.Runtime.Administrator.{
  administrator, AdminSession, AdminCredential, authenticated, Crypto, setup, login, authenticate,
  logout, cleanup, credential_from_stored, validated_credential, parse, as_str,
}
use parlando.Runtime.Administrator.Laws.{
  Granted, authenticate-IsLive, login-authenticate, logout-authenticate, cleanup-authenticate,
  authenticate-authenticate,
}
use parlando.Runtime.Administrator.Setup.{setup-login}

-- Hashes that are readable, and tokens that are their own digests.
abbrev plain : Crypto
plain = record {
  trim = λ text. text;
  algorithm = λ hash. some "argon2id";
  hash_password = λ password salt. some password;
  verify_password = λ password hash. true;
  comparison_digest = λ text. text;
  administrator_token_digest = λ token. token;
}

abbrev runs : Query → Bool
runs query = true

abbrev empty_store : Store
empty_store = record { credential = none; sessions = [] }

abbrev or_slot : Result (Bool × Option AdminCredential) × Store → Option AdminCredential × Store
or_slot (ok (made, slot), store) = (slot, store)
or_slot (err error, store) = (none, store)

abbrev set_up : Option AdminCredential × Store
set_up = or_slot (setup plain runs "ada" "correct horse" "salt" none empty_store)

abbrev session : AdminSession
session = record {
  role = administrator;
  csrf_token = "csrf_1";
  created_at = 1000;
  last_seen_at = 1000;
}

abbrev logged_in : Store
logged_in = (login plain runs 0 set_up.0 "ada" "correct horse" "adm_1" "csrf_1" 1000 set_up.1).1

set_up_lem :
    setup plain runs "ada" "correct horse" "salt" none empty_store ≡ (ok (true, set_up.0), set_up.1)
unfolding setup create_admin_credential credential_from_stored validated_credential parse as_str
set_up_lem = refl

logged_in_lem :
    login plain runs 0 set_up.0 "ada" "correct horse" "adm_1" "csrf_1" 1000 set_up.1
    ≡ (ok (authenticated "adm_1" session), logged_in)
unfolding setup create_admin_credential credential_from_stored validated_credential parse login
    save_admin_session as_str lookup
logged_in_lem = refl

setup-login_example :
    (login plain runs 1 set_up.0 "ada" "correct horse" "adm_1" "csrf_1" 1000 set_up.1).0
    ≡ ok (authenticated "adm_1" session)
unfolding lookup
setup-login_example =
    setup-login plain runs "ada" "correct horse" "salt" "adm_1" "csrf_1" none set_up.0 empty_store
      set_up.1 1 1000 (λ hash made. (refl, refl)) (λ query. refl) set_up_lem (omega arith) refl

login-authenticate_example :
    (authenticate plain runs "adm_1" 2000 logged_in).0
    ≡ ok (some (record session { last_seen_at = 2000 }))
login-authenticate_example =
    login-authenticate plain runs (λ query. refl) 0 set_up.0 "ada" "correct horse" "adm_1" "csrf_1"
      1000 2000 session set_up.1 logged_in logged_in_lem (omega arith)

abbrev later_session : AdminSession
later_session = record session { last_seen_at = 2000 }

abbrev seen_again : Store
seen_again = (authenticate plain runs "adm_1" 2000 logged_in).1

seen_again_lem :
    authenticate plain runs "adm_1" 2000 logged_in ≡ (ok (some later_session), seen_again)
unfolding setup create_admin_credential credential_from_stored validated_credential parse login
    save_admin_session as_str lookup insert authenticate admin_session touch_admin_session
seen_again_lem = refl

authenticate-authenticate_example :
    (authenticate plain runs "adm_1" 600000 seen_again).0
    ≡ ok (some (record later_session { last_seen_at = 600000 }))
authenticate-authenticate_example =
    authenticate-authenticate plain runs (λ query. refl) "adm_1" 2000 600000 later_session logged_in
      seen_again seen_again_lem (omega arith) (omega arith)

authenticate-IsLive_example :
    ((authenticate plain runs "adm_1" 2000 logged_in).0 ≡ ok (some later_session))
    ↔ Granted plain runs 2000 later_session (lookup "adm_1" logged_in.sessions)
authenticate-IsLive_example =
    authenticate-IsLive plain runs (λ query. refl) "adm_1" 2000 logged_in later_session

logout-authenticate_example :
    ((authenticate plain runs "adm_1" 2000 (logout plain runs "adm_1" logged_in).1).0 ≡ ok none)
    × ((authenticate plain runs "adm_2" 2000 (logout plain runs "adm_1" logged_in).1).0
        ≡ (authenticate plain runs "adm_2" 2000 logged_in).0)
logout-authenticate_example =
    logout-authenticate plain runs (λ query. refl) "adm_1" "adm_2" 2000 logged_in
      (ground (arith, eq_iff "adm_1" "adm_2"))

abbrev two_sessions : Store
two_sessions = record {
  credential = none;
  sessions =
      (
        "adm_1",
        record {
          token_digest = "adm_1";
          role = "operator";
          csrf_token = "csrf_1";
          created_at = 10;
          last_seen_at = 10;
        },
      )
      ∷ (
        "adm_2",
        record {
          token_digest = "adm_2";
          role = "operator";
          csrf_token = "csrf_2";
          created_at = 900000;
          last_seen_at = 900000;
        },
      )
      ∷ [];
}

two_sessions-HasUniqueKeys : HasUniqueKeys two_sessions.sessions
unfolding lookup
two_sessions-HasUniqueKeys = (refl, (refl, tt))

cleanup-authenticate_example :
    (authenticate plain runs "adm_1" 950001 (cleanup plain runs 950000 two_sessions).1).0
    ≡ (authenticate plain runs "adm_1" 950001 two_sessions).0
cleanup-authenticate_example =
    cleanup-authenticate plain runs (λ query. refl) "adm_1" 950000 950001 two_sessions
      two_sessions-HasUniqueKeys (omega arith)
