-- ===== src/Runtime/Credentials/Laws.antt =====
-- auth.rs: who is authenticated, and what cleaning up and revoking change.
use parlando.Common.{
  ℕ, ◌+◌, ◌≤◌, ◌≡◌, refl, Bool, true, false, not, ◌&&◌, List, [], ◌∷◌, none, some, String,
  eq_String, eq_ℕ, ◌==◌, ==_iff, lookup, values, retain, retain_values, contains, any,
  lookup-insert, lookup-retain_values, HasUniqueKeys, any-values_of_lookup, values-retain_values,
  contains-retain, any-retain, ◌||◌, ap, ltb, leb, arith, if◌then◌else◌, Option-cases, inl, inr,
  keep_if,
}
use parlando.Runtime.Credentials.{
  ParticipantPrincipal, CredentialRecord, Records, participant_lifetime_seconds, is_live, issue,
  authenticate, has_generation, generation_is_active, sessions_of, cleanup,
  revoke_participant_session,
}

module _ (digest : String → String) where
  -- Cleaning up changes no answer of `authenticate`, at that time or later.
  pub cleanup-authenticate :
      (records : Records) (credential : String) (now later : ℕ)
      → HasUniqueKeys records
      → now ≤ later
      → authenticate digest (cleanup records now).0 credential later
        ≡ authenticate digest records credential later
  unfolding authenticate cleanup
  cleanup-authenticate records credential now later u h =
      ground (arith, lookup-retain_values (is_live now) (digest credential) records u)

  -- Revoking a participant session shuts out its credentials, and changes nothing for another.
  pub revoke-authenticate :
      (records : Records) (session credential : String) (now : ℕ)
      → HasUniqueKeys records
      → authenticate digest (revoke_participant_session records session) credential now
        ≡ keep_if
            (λ (p : ParticipantPrincipal). not (p.participant_session_id == session))
            (authenticate digest records credential now)
  unfolding authenticate revoke_participant_session
  revoke-authenticate records session credential now u = ground (
    arith,
    lookup-retain_values (λ (r : CredentialRecord). not (r.participant_session_id == session))
        (digest credential) records u,
  )

  -- A credential stands for its participant session from issue until its lifetime ends.
  pub issue-authenticate :
      (records : Records) (session credential : String) (now later : ℕ)
      → (authenticate digest (issue digest records session credential now) credential later ≡ (
          if ltb later (now + participant_lifetime_seconds)
          then some (record { participant_session_id = session; generation = 1 })
          else none))
  unfolding authenticate issue
  issue-authenticate records session credential now later = ground (
    arith,
    lookup-insert (digest credential) (digest credential)
        (record {
          participant_session_id = session;
          generation = 1;
          expires_at = now + participant_lifetime_seconds;
          revoked = false;
        })
        records,
    ==_iff (digest credential) (digest credential),
  )

  -- A credential that is authenticated has an active generation.
  pub authenticate-generation_is_active :
      (records : Records) (credential : String) (now : ℕ) (p : ParticipantPrincipal)
      → authenticate digest records credential now ≡ some p
      → generation_is_active records p.participant_session_id p.generation now ≡ true
  unfolding authenticate generation_is_active
  authenticate-generation_is_active records credential now p h =
      elim (Option-cases (lookup (digest credential) records)) [
        | inl e ↦ ground arith
        | inr (r, e) ↦
            any-values_of_lookup (has_generation p.participant_session_id p.generation now)
              (digest credential) r records e
              (ground (
                arith,
                ==_iff r.participant_session_id p.participant_session_id,
                ==_iff r.generation p.generation,
              ))
      ]

none_left :
    (rs : List CredentialRecord) (session : String) (generation now : ℕ)
    → any
        (has_generation session generation now)
        (retain (λ r. not (r.participant_session_id == session)) rs)
      ≡ false
none_left [] session generation now = refl
none_left (r ∷ rs) session generation now = ground (arith, none_left rs session generation now)

-- After a revocation no generation of the participant session is active, so that no ticket of it
-- is honoured.
pub revoke-generation_is_active :
    (records : Records) (session : String) (generation now : ℕ)
    → generation_is_active (revoke_participant_session records session) session generation now
      ≡ false
unfolding generation_is_active revoke_participant_session
revoke-generation_is_active records session generation now =
    rw
      (values-retain_values (λ (r : CredentialRecord). not (r.participant_session_id == session))
        records)
      (none_left (values records) session generation now)

contains-sessions_of :
    (rs : List CredentialRecord) (session : String)
    → contains (sessions_of rs) session
      ≡ any (λ (r : CredentialRecord). r.participant_session_id == session) rs
contains-sessions_of [] session = refl
contains-sessions_of (r ∷ rs) session = ground (arith, contains-sessions_of rs session)

any-both :
    (p q : CredentialRecord → Bool) (rs : List CredentialRecord)
    → ((r : CredentialRecord) → p r ≡ q r)
    → any p rs ≡ any q rs
any-both p q [] h = refl
any-both p q (r ∷ rs) h = ground (arith, h r, any-both p q rs h)

dead-live :
    (now : ℕ) (session : String) (r : CredentialRecord)
    → ((r.revoked || leb r.expires_at now) && (r.participant_session_id == session))
      ≡ (not (is_live now r) && (r.participant_session_id == session))
dead-live now session r = ground arith

-- The sessions that a clean-up reports are those that had a credential which is no longer live,
-- and have none that is.
pub cleanup_reports :
    (records : Records) (now : ℕ) (session : String)
    → contains (cleanup records now).1 session ≡ (
        any
          (λ (r : CredentialRecord). not (is_live now r) && (r.participant_session_id == session))
          (values records)
        && not (
            any
              (λ (r : CredentialRecord). is_live now r && (r.participant_session_id == session))
              (values records)))
unfolding cleanup
cleanup_reports records now session =
    let all = values records in
    let kept = values (retain_values (is_live now) records) in
    let of_session : CredentialRecord → Bool = λ r. r.participant_session_id == session in
    let is_dead : CredentialRecord → Bool = λ r. r.revoked || leb r.expires_at now in
    ground (
      arith,
      contains-retain (λ s. not (contains (sessions_of kept) s)) (sessions_of (retain is_dead all))
          session,
      contains-sessions_of (retain is_dead all) session,
      any-retain is_dead of_session all,
      any-both (λ r. is_dead r && of_session r) (λ r. not (is_live now r) && of_session r) all
          (dead-live now session),
      contains-sessions_of kept session,
      ap (any of_session) (values-retain_values (is_live now) records),
      any-retain (is_live now) of_session all,
    )
