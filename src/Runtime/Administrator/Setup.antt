-- ===== src/Runtime/Administrator/Setup.antt =====
-- rust-server/src/auth.rs: the first administrator is set up once, and can log in.
use parlando.Common.{
  ℕ, ◌<◌, ◌≡◌, ◌≢◌, Bool, true, Option, none, some, String, eq_String, ==_iff, lookup, arith,
  Option-cases, inl, inr, is_some, eq_ℕ,
}
use parlando.Runtime.Administrator.Tables.{
  ok, Query, insert_session, Store, StoredAdminCredential, create_admin_credential,
  save_admin_session,
}
use parlando.Runtime.Administrator.{
  administrator, AdminCredential, authenticated, Crypto, validated_credential,
  credential_from_stored, setup, stored_first, login,
}
use parlando.Runtime.Administrator.Laws.{parse-as_str}

module _ (crypto : Crypto) (runs : Query → Bool) where
  -- With an administrator in the database, no setup succeeds or changes anything.
  pub setup_once :
      (username password salt : String) (slot : Option AdminCredential) (store : Store)
      (existing : StoredAdminCredential)
      → store.credential ≡ some existing
      → ((setup crypto runs username password salt slot store).1 ≡ store)
        × ((slot' : Option AdminCredential)
            → (setup crypto runs username password salt slot store).0 ≢ ok (true, slot'))
  unfolding setup create_admin_credential
  setup_once username password salt slot store existing there =
      elim (Option-cases (crypto.hash_password password salt)) [
        | inl none_made ↦ (ground (arith, none_made), λ slot'. ground (arith, none_made))
        | inr (hash, made) ↦ (ground (arith, made, there), λ slot'. ground (arith, made, there))
      ]

  -- A setup that succeeds stores the administrator under the trimmed name, whose name and password
  -- have the lengths allowed.
  setup-credential :
      (username password salt : String) (slot slot' : Option AdminCredential) (store store' : Store)
      → setup crypto runs username password salt slot store ≡ (ok (true, slot'), store')
      → (hash : String) × (crypto.hash_password password salt ≡ some hash)
        × (store.credential ≡ none)
        × (store'.sessions ≡ store.sessions)
        × (store'.credential ≡ some (stored_first crypto runs (crypto.trim username) hash))
        × (slot'
            ≡ some (record {
              username = crypto.trim username;
              password_hash = hash;
              role = administrator;
            }))
  unfolding setup create_admin_credential credential_from_stored validated_credential
  setup-credential username password salt slot slot' store store' h =
      elim (Option-cases (crypto.hash_password password salt)) [
        | inl none_made ↦ absurd (ground (arith, none_made, h))
        | inr (hash, made) ↦ elim (Option-cases store.credential) [
          | inl open_slot ↦ (
            hash,
            made,
            open_slot,
            ground (arith, made, open_slot, parse-as_str administrator),
            ground (arith, made, open_slot, parse-as_str administrator),
            ground (arith, made, open_slot, parse-as_str administrator),
          )
          | inr (existing, there) ↦ absurd (ground (arith, made, there))
        ]
      ]

  -- After a successful setup the trimmed name and the password log in, while a login slot is free and
  -- the drawn token's digest is new, as an administrator.
  pub setup-login :
      (username password salt token csrf_token : String) (slot slot' : Option AdminCredential)
      (store store' : Store) (logins now : ℕ)
      → ((hash : String)
          → crypto.hash_password password salt ≡ some hash
          → (crypto.verify_password password hash ≡ true)
            × (is_some (crypto.algorithm hash) ≡ true))
      → ((query : Query) → runs query ≡ true)
      → setup crypto runs username password salt slot store ≡ (ok (true, slot'), store')
      → logins < 2
      → lookup (crypto.administrator_token_digest token) store.sessions ≡ none
      → (login crypto runs logins slot'
          (crypto.trim username)
          password
          token
          csrf_token
          now
          store').0
        ≡ ok (
            authenticated token (record {
              role = administrator;
              csrf_token = csrf_token;
              created_at = now;
              last_seen_at = now;
            }))
  unfolding login save_admin_session
  setup-login username password salt token csrf_token slot slot' store store' logins now verifies
        works h free fresh =
      let (hash, made, vacant, same, kept, active) =
        setup-credential username password salt slot slot' store store' h in
      let (verified, parsed) = verifies hash made in
      rw (active, same)
        (ground (
          arith,
          verified,
          parsed,
          works insert_session,
          fresh,
          free,
          ==_iff (crypto.comparison_digest (crypto.trim username))
              (crypto.comparison_digest (crypto.trim username)),
        ))
