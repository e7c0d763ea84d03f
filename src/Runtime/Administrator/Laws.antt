-- ===== src/Runtime/Administrator/Laws.antt =====
-- rust-server/src/auth.rs: what the administrator's sessions promise.
use parlando.Common.{
  ℕ, ◌+◌, ◌≤◌, ◌<◌, ◌≡◌, ◌≢◌, ◌↔◌, refl, Bool, true, Option, none, some, String, eq_String, ==_iff,
  lookup, insert, lookup-insert, lookup-remove, lookup-retain_values, HasUniqueKeys, keep_if, leb,
  if◌then◌else◌, arith, sym, ap, ◌∙◌, Bool-cases, inl, inr,
}
use parlando.Runtime.Administrator.Tables.{
  Result, ok, err, pure, and_then, Query, update_session, delete_session, select_session,
  delete_expired, Store, StoredAdminSession, touched, outlives, admin_session, touch_admin_session,
  delete_admin_session, save_admin_session, delete_expired_admin_sessions,
}
use parlando.Runtime.Administrator.{
  AdminRole, operator, administrator, parse, as_str, AdminCredential, AdminSession, authenticated,
  Crypto, lift, is_expired, current, authenticate_stored, authenticate, logout, cleanup, login,
  new_session, stored_session, admin_idle_seconds, admin_absolute_seconds, admin_touch_seconds,
}

pub parse-as_str : (role : AdminRole) → parse (as_str role) ≡ ok role
unfolding parse as_str
parse-as_str operator = refl
parse-as_str administrator = refl

module _ (crypto : Crypto) (runs : Query → Bool) where
  abbrev answer_as : StoredAdminSession → ℕ → Result AdminRole → Result (Option AdminSession)
  answer_as stored now (ok role) = ok (some (current crypto runs stored now role))
  answer_as stored now (err error) = err error

  -- What a session's row says at a time.
  abbrev answer : ℕ → Option StoredAdminSession → Result (Option AdminSession)
  answer now none = ok none
  answer now (some stored) =
      if is_expired crypto runs stored now
      then ok none
      else answer_as stored now (parse stored.role)

  -- The row of a session that has neither idled out nor reached its absolute end.
  pub record IsLive (stored : StoredAdminSession) (now : ℕ) : Type 0 where
    pub seen : now < stored.last_seen_at + admin_idle_seconds
    pub young : now < stored.created_at + admin_absolute_seconds

  -- The row, if there is one, grants the session.
  abbrev pub Granted : ℕ → AdminSession → Option StoredAdminSession → Type 0
  Granted now session none = ⊥
  Granted now session (some stored) =
      IsLive stored now
      × ((role : AdminRole) × (parse stored.role ≡ ok role)
          × (session ≡ record {
            role = role;
            csrf_token = stored.csrf_token;
            created_at = stored.created_at;
            last_seen_at = now;
          }))

  role-Granted :
      (now : ℕ) (session : AdminSession) (stored : StoredAdminSession) (role : Result AdminRole)
      → (answer_as stored now role ≡ ok (some session))
        ↔ ((r : AdminRole) × (role ≡ ok r) × (session ≡ current crypto runs stored now r))
  role-Granted now session stored (ok role) = (λ h. (role, refl, cc), λ g. ground arith)
  role-Granted now session stored (err error) = (λ h. cc, λ g. ground arith)

  answer-Granted :
      (now : ℕ) (session : AdminSession) (o : Option StoredAdminSession)
      → (answer now o ≡ ok (some session)) ↔ Granted now session o
  answer-Granted now session none = (λ h. cc, λ h. absurd h)
  answer-Granted now session (some stored) = elim (Bool-cases (is_expired crypto runs stored now)) [
    | inl over ↦ (λ h. absurd (ground arith), λ h. absurd (ground arith))
    | inr live ↦
        let (to, from) = role-Granted now session stored (parse stored.role) in
        (λ h. (ground arith, to (ground arith)), λ h. ground (arith, from h.1))
  ]

  answer-keep_if :
      (now later : ℕ) (o : Option StoredAdminSession)
      → now ≤ later
      → answer later (keep_if (outlives runs admin_idle_seconds admin_absolute_seconds now) o)
        ≡ answer later o
  answer-keep_if now later none le = refl
  answer-keep_if now later (some stored) le = ground arith

  login-saved :
      (logins : ℕ) (slot : Option AdminCredential) (username password token csrf_token : String)
      (now : ℕ) (session : AdminSession) (store store' : Store)
      → login crypto runs logins slot username password token csrf_token now store
        ≡ (ok (authenticated token session), store')
      → (role : AdminRole) × (session ≡ new_session crypto runs role csrf_token now)
        × (store'.sessions
            ≡ insert
                (crypto.administrator_token_digest token)
                (stored_session crypto runs token session)
                store.sessions)
  unfolding login save_admin_session
  login-saved logins none username password token csrf_token now session store store' h =
      absurd (ground arith)
  login-saved logins (some c) username password token csrf_token now session store store' h =
      (c.role, ground arith, ground arith)

  module _ (works : (query : Query) → runs query ≡ true) where
    parsed-answer :
        (stored : StoredAdminSession) (now : ℕ) (role : Result AdminRole) (store : Store)
        → (and_then
            (lift role store)
            (λ role'. pure (some (current crypto runs stored now role')))).0
          ≡ answer_as stored now role
    parsed-answer stored now (ok role) store = refl
    parsed-answer stored now (err error) store = refl

    stored-answer :
        (digest : String) (now : ℕ) (o : Option StoredAdminSession) (store : Store)
        → (authenticate_stored crypto runs digest now o store).0 ≡ answer now o
    unfolding touch_admin_session delete_admin_session
    stored-answer digest now none store = refl
    stored-answer digest now (some stored) store = ground (
      arith,
      works update_session,
      works delete_session,
      parsed-answer stored now (parse stored.role) store,
      parsed-answer stored now (parse stored.role) (record store {
        sessions = touched runs digest now store.sessions (lookup digest store.sessions);
      }),
    )

    authenticate-answer :
        (token : String) (now : ℕ) (store : Store)
        → (authenticate crypto runs token now store).0
          ≡ answer now (lookup (crypto.administrator_token_digest token) store.sessions)
    unfolding authenticate admin_session
    authenticate-answer token now store = rw (works select_session) (
        stored-answer (crypto.administrator_token_digest token) now
          (lookup (crypto.administrator_token_digest token) store.sessions) store)

    -- A token authenticates exactly when the row of its digest is live and holds a known role; the
    -- session given is the row's, seen now.
    pub authenticate-IsLive :
        (token : String) (now : ℕ) (store : Store) (session : AdminSession)
        → ((authenticate crypto runs token now store).0 ≡ ok (some session))
          ↔ Granted now session (lookup (crypto.administrator_token_digest token) store.sessions)
    authenticate-IsLive token now store session = rw (authenticate-answer token now store) (
        answer-Granted now session
          (lookup (crypto.administrator_token_digest token) store.sessions))

    -- A session that has logged in authenticates until it has idled for seven days.
    pub login-authenticate :
        (logins : ℕ) (slot : Option AdminCredential) (username password token csrf_token : String)
        (now later : ℕ) (session : AdminSession) (store store' : Store)
        → login crypto runs logins slot username password token csrf_token now store
          ≡ (ok (authenticated token session), store')
        → later < now + admin_idle_seconds
        → (authenticate crypto runs token later store').0
          ≡ ok (some (record session { last_seen_at = later }))
    login-authenticate logins slot username password token csrf_token now later session store store'
          h t =
        let (role, made, kept) =
          login-saved logins slot username password token csrf_token now session store store' h in
        let digest = crypto.administrator_token_digest token in
        let found : lookup digest store'.sessions
            ≡ some (stored_session crypto runs token session) =
          rw kept (
            ground (
              arith,
              lookup-insert digest digest (stored_session crypto runs token session) store.sessions,
              ==_iff digest digest,
            )) in
        rw (authenticate-answer token later store', found) (ground (arith, made, parse-as_str role))

    -- A logged-out token authenticates no more, and a token of another digest as before.
    pub logout-authenticate :
        (token other : String) (now : ℕ) (store : Store)
        → crypto.administrator_token_digest token ≢ crypto.administrator_token_digest other
        → ((authenticate crypto runs token now (logout crypto runs token store).1).0 ≡ ok none)
          × ((authenticate crypto runs other now (logout crypto runs token store).1).0
              ≡ (authenticate crypto runs other now store).0)
    unfolding logout delete_admin_session
    logout-authenticate token other now store apart =
        let gone = crypto.administrator_token_digest token in
        let kept = crypto.administrator_token_digest other in
        rw
          (
            works delete_session,
            authenticate-answer token now,
            authenticate-answer other now,
            authenticate-answer other now store,
            lookup-remove gone gone store.sessions,
            lookup-remove gone kept store.sessions,
          )
          (ground (arith, ==_iff gone gone, ==_iff gone kept))

    -- Removing expired sessions changes no later answer.
    pub cleanup-authenticate :
        (token : String) (now later : ℕ) (store : Store)
        → HasUniqueKeys store.sessions
        → now ≤ later
        → (authenticate crypto runs token later (cleanup crypto runs now store).1).0
          ≡ (authenticate crypto runs token later store).0
    unfolding cleanup delete_expired_admin_sessions
    cleanup-authenticate token now later store unique le =
        let digest = crypto.administrator_token_digest token in
        rw
          (
            works delete_expired,
            authenticate-answer token later,
            lookup-retain_values (outlives runs admin_idle_seconds admin_absolute_seconds now)
                digest store.sessions unique,
            authenticate-answer token later store,
          )
          (answer-keep_if now later (lookup digest store.sessions) le)

    -- The row that a use leaves: the session's, and seen in the last five minutes.
    Fresh : String → ℕ → AdminSession → Store → Type 0
    Fresh digest now session store =
        (row : StoredAdminSession) × (lookup digest store.sessions ≡ some row)
        × (now < row.last_seen_at + admin_touch_seconds)
        × (row.created_at ≡ session.created_at)
        × (row.csrf_token ≡ session.csrf_token)
        × (parse row.role ≡ ok session.role)

    stored-Fresh :
        (digest : String) (now : ℕ) (session : AdminSession) (o : Option StoredAdminSession)
        (store store' : Store)
        → lookup digest store.sessions ≡ o
        → authenticate_stored crypto runs digest now o store ≡ (ok (some session), store')
        → Fresh digest now session store'
    unfolding Fresh touch_admin_session delete_admin_session
    stored-Fresh digest now session none store store' found h = absurd (ground arith)
    stored-Fresh digest now session (some stored) store store' found h =
        let (live, (role, known, made)) =
          (answer-Granted now session (some stored)).0
            (sym (stored-answer digest now (some stored) store) ∙ ap (λ p. p.0) h) in
        elim (Bool-cases (leb (stored.last_seen_at + admin_touch_seconds) now)) [
          | inl stale ↦
              let row = record stored { last_seen_at = now } in
              (
                row,
                ground (
                  arith,
                  works update_session,
                  works delete_session,
                  known,
                  lookup-insert digest digest row store.sessions,
                  ==_iff digest digest,
                ),
                omega arith,
                ground arith,
                ground arith,
                ground arith,
              )
          | inr fresh ↦ (
            stored,
            ground (arith, works delete_session, known),
            ground arith,
            ground arith,
            ground arith,
            ground arith,
          )
        ]

    -- A session that is used stays valid for seven days less five minutes, up to its absolute end.
    pub authenticate-authenticate :
        (token : String) (now later : ℕ) (session : AdminSession) (store store' : Store)
        → authenticate crypto runs token now store ≡ (ok (some session), store')
        → later + admin_touch_seconds ≤ now + admin_idle_seconds
        → later < session.created_at + admin_absolute_seconds
        → (authenticate crypto runs token later store').0
          ≡ ok (some (record session { last_seen_at = later }))
    unfolding authenticate admin_session Fresh
    authenticate-authenticate token now later session store store' h soon young =
        let digest = crypto.administrator_token_digest token in
        let (row, found, seen, created, csrf, role) =
          stored-Fresh digest now session (lookup digest store.sessions) store store' refl
            (ground (arith, works select_session, h)) in
        let live : IsLive row later = record { seen = omega arith; young = omega arith } in
        let session' = record session { last_seen_at = later } in
        let made : session' ≡ current crypto runs row later session.role =
          ground (arith, created, csrf) in
        (authenticate-IsLive token later store' session').1
          (rw found (live, (session.role, role, made)))
