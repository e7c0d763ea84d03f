-- ===== src/Runtime/Examples/Access.antt =====
-- Credentials, tickets, the creation limit, the log and the lifecycle of an experiment.
use parlando.Common.{
  ◌≡◌, ◌≤◌, ◌+◌, refl, true, false, not, [], ◌∷◌, none, String, arith, ◌==◌, ==_iff, eq_String,
  lookup, insert, retain_values, keep_if,
}
use parlando.Runtime.Limits.{ParticipantCreationRate, accepted, in_window, creation_rate_bounded}
use parlando.Runtime.Tickets.{
  UpgradePurpose, UpgradeTicketClaims, Tickets, issue, consume, same_scope,
}
use parlando.Runtime.Tickets.Laws.{consume_once, issue_supersedes}
use parlando.Runtime.Credentials.{
  ParticipantPrincipal, Records, authenticate, revoke_participant_session,
}
use parlando.Runtime.Credentials.Laws.{revoke-authenticate}
use parlando.Runtime.SessionLog.{SessionLogSource, reserve, max_session_log_bytes}
use parlando.Runtime.SessionLog.Interleaved.{Shared, start, next, reserves, bytes_of, log_bounded}

-- A digest that keeps the token as it is.
abbrev plain : String → String
plain s = s

abbrev claims : UpgradeTicketClaims
claims = record {
  public_session_id = "room";
  participant_session_id = "ps1";
  role = "A";
  generation = 1;
  purpose = UpgradePurpose.game;
  expires_at = 100;
}

abbrev stored : Tickets
stored = ("t1", claims) ∷ []

abbrev later_claims : UpgradeTicketClaims
later_claims = record claims { participant_session_id = "ps2"; expires_at = 200 }

consume_once_example :
    (consume plain
      (consume plain stored "t1" UpgradePurpose.game "room" 40).0
      "t1"
      UpgradePurpose.audio
      "room"
      41).1
    ≡ none
consume_once_example =
    consume_once plain stored "t1" "room" "room" UpgradePurpose.game UpgradePurpose.audio 40 41

issue_supersedes_example : same_scope later_claims claims ≡ false
unfolding consume issue lookup insert retain_values
issue_supersedes_example =
    issue_supersedes plain (("t1", later_claims) ∷ []) claims later_claims "t2" "t1" "room"
      UpgradePurpose.game 50 70 (refl, tt)
      (λ e. let same : false ≡ true = (==_iff "t1" "t2").1 e in cc) refl

abbrev records : Records
records =
    (
      "c1",
      record { participant_session_id = "ps1"; generation = 1; expires_at = 100; revoked = false },
    )
    ∷ []

revoke-authenticate_example :
    authenticate plain (revoke_participant_session records "ps1") "c1" 20
    ≡ keep_if
        (λ (p : ParticipantPrincipal). not (p.participant_session_id == "ps1"))
        (authenticate plain records "c1" 20)
unfolding lookup
revoke-authenticate_example = revoke-authenticate plain records "ps1" "c1" 20 (refl, tt)

abbrev rate : ParticipantCreationRate
rate = record { global = []; max_attempts = 2; window_seconds = 10 }

creation_rate_bounded_example : in_window 10 8 (accepted rate (1 ∷ 2 ∷ 3 ∷ [])) ≤ 2
creation_rate_bounded_example =
    creation_rate_bounded rate 8 (1 ∷ 2 ∷ 3 ∷ []) refl
      ((omega arith, (omega arith, tt)), ((omega arith, tt), (tt, tt)))

abbrev one_call : Shared
one_call = record {
  accepted_bytes = 2;
  taken = [];
  reserved = record { source = SessionLogSource.from_game; text = "hi" } ∷ [];
  failed = [];
}

log_bounded_example :
    (one_call.accepted_bytes
      ≡ bytes_of one_call.taken + bytes_of one_call.reserved + bytes_of one_call.failed)
    × (one_call.accepted_bytes ≤ max_session_log_bytes)
unfolding reserve
log_bounded_example = log_bounded one_call (
    next start
      (reserves (record { source = SessionLogSource.from_game; text = "hi" }) 2 (omega arith) refl))
