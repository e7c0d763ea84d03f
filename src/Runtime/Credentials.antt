-- ===== src/Runtime/Credentials.antt =====
-- rust-server/src/auth.rs: `ParticipantAuthenticator`, the credentials of participants.
-- The digest of a credential (`token_digest`, with the process's pepper) is a parameter, and the
-- credential that `random_token` draws is an argument. Times are seconds, given to each call.
pub mod Laws
use parlando.Common.{
  ℕ, ◌+◌, ◌*◌, eq_ℕ, Bool, true, false, ◌&&◌, ◌||◌, not, List, [], ◌∷◌, map, Option, none, some,
  String, eq_String, ◌==◌, Map, insert, lookup, values, retain, retain_values, contains, any, ltb,
  leb, if◌then◌else◌,
}

pub record ParticipantPrincipal : Type 0 where
  pub participant_session_id : String
  pub generation : ℕ

pub record CredentialRecord : Type 0 where
  pub participant_session_id : String
  pub generation : ℕ
  pub expires_at : ℕ
  pub revoked : Bool

abbrev pub Records : Type 0
Records = Map String CredentialRecord

abbrev pub participant_lifetime_seconds : ℕ
participant_lifetime_seconds = 24 * 60 * 60

-- `!record.revoked && record.expires_at > now`.
abbrev pub is_live : ℕ → CredentialRecord → Bool
is_live now r = not r.revoked && ltb now r.expires_at

module _ (digest : String → String) where
  -- `issue`, with the credential that `random_token` drew.
  unfoldable pub issue : Records → String → String → ℕ → Records
  issue records participant_session_id credential now =
      insert (digest credential)
        (record {
          participant_session_id = participant_session_id;
          generation = 1;
          expires_at = now + participant_lifetime_seconds;
          revoked = false;
        })
        records

  unfoldable pub authenticate : Records → String → ℕ → Option ParticipantPrincipal
  authenticate records credential now = elim (lookup (digest credential) records) [
    | none ↦ none
    | some r ↦
        if is_live now r
        then some (record {
          participant_session_id = r.participant_session_id;
          generation = r.generation;
        })
        else none
  ]

abbrev pub has_generation : String → ℕ → ℕ → CredentialRecord → Bool
has_generation participant_session_id generation now r =
    is_live now r
    && ((r.participant_session_id == participant_session_id) && (r.generation == generation))

unfoldable pub generation_is_active : Records → String → ℕ → ℕ → Bool
generation_is_active records participant_session_id generation now =
    any (has_generation participant_session_id generation now) (values records)

abbrev pub sessions_of : List CredentialRecord → List String
sessions_of = map (λ r. r.participant_session_id)

-- `cleanup`: the records that stay, and the sessions that have lost their last credential.
unfoldable pub cleanup : Records → ℕ → Records × List String
cleanup records now =
    let expired = sessions_of (retain (λ r. r.revoked || leb r.expires_at now) (values records)) in
    let kept = retain_values (is_live now) records in
    let active = sessions_of (values kept) in
    (kept, retain (λ session. not (contains active session)) expired)

unfoldable pub revoke_participant_session : Records → String → Records
revoke_participant_session records participant_session_id =
    retain_values (λ r. not (r.participant_session_id == participant_session_id)) records
