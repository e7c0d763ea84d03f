-- ===== src/Runtime/Tickets.antt =====
-- rust-server/src/auth.rs: `UpgradeTicketStore`, the one-use tickets of a WebSocket upgrade.
-- `token_digest` (keyed by the process's pepper) and `random_token` stand outside the
-- repository's code: the digest is a parameter, and a random ticket is an argument of the call.
-- Times are seconds; each call is given the clock that it reads.
pub mod Laws
use parlando.Common.{
  ℕ, ◌+◌, Bool, true, false, ◌&&◌, ◌||◌, not, Option, none, some, String, eq_String, ◌==◌, Eq, Map,
  insert, lookup, remove, retain_values, ltb, if◌then◌else◌, ◌≡◌, ◌↔◌, arith,
}

pub data UpgradePurpose : Type 0 where
  game audio : UpgradePurpose

abbrev pub purpose_eq : UpgradePurpose → UpgradePurpose → Bool
purpose_eq game game = true
purpose_eq audio audio = true
purpose_eq game audio = false
purpose_eq audio game = false

pub purpose_eq_iff : (p q : UpgradePurpose) → (purpose_eq p q ≡ true) ↔ (p ≡ q)
purpose_eq_iff p q = ground arith

instance abbrev pub eq_UpgradePurpose : Eq UpgradePurpose
eq_UpgradePurpose = record { equals = purpose_eq; equals_iff = purpose_eq_iff }

pub record UpgradeTicketClaims : Type 0 where
  pub public_session_id : String
  pub participant_session_id : String
  pub role : String
  pub generation : ℕ
  pub purpose : UpgradePurpose
  pub expires_at : ℕ

abbrev pub Tickets : Type 0
Tickets = Map String UpgradeTicketClaims

abbrev pub ticket_lifetime_seconds : ℕ
ticket_lifetime_seconds = 60

-- Whether two tickets are for the same room, participant and purpose.
abbrev pub same_scope : UpgradeTicketClaims → UpgradeTicketClaims → Bool
same_scope c d =
    (c.public_session_id == d.public_session_id)
    && ((c.participant_session_id == d.participant_session_id) && (c.purpose == d.purpose))

-- The test of the second `retain` of `issue`.
abbrev pub is_other_scope : UpgradeTicketClaims → UpgradeTicketClaims → Bool
is_other_scope claims existing =
    not (existing.public_session_id == claims.public_session_id)
    || (not (existing.participant_session_id == claims.participant_session_id)
        || not (existing.purpose == claims.purpose))

module _ (digest : String → String) where
  -- `issue`, with the ticket that `random_token` drew.
  unfoldable pub issue : Tickets → UpgradeTicketClaims → String → ℕ → Tickets
  issue tickets claims ticket now =
      let stamped = record claims { expires_at = now + ticket_lifetime_seconds } in
      let live = retain_values (λ existing. ltb now existing.expires_at) tickets in
      let others = retain_values (is_other_scope stamped) live in
      insert (digest ticket) stamped others

  abbrev pub is_admitted : UpgradePurpose → String → ℕ → UpgradeTicketClaims → Bool
  is_admitted purpose public_session_id now claims =
      ltb now claims.expires_at
      && ((claims.purpose == purpose) && (claims.public_session_id == public_session_id))

  -- `consume`: the ticket is taken out whether or not it is then admitted.
  unfoldable pub consume :
      Tickets → String → UpgradePurpose → String → ℕ → Tickets × Option UpgradeTicketClaims
  consume tickets ticket purpose public_session_id now = elim (lookup (digest ticket) tickets) [
    | none ↦ (remove (digest ticket) tickets, none)
    | some claims ↦ (
      remove (digest ticket) tickets,
      if is_admitted purpose public_session_id now claims then some claims else none,
    )
  ]

unfoldable pub cleanup : Tickets → ℕ → Tickets
cleanup tickets now = retain_values (λ claims. ltb now claims.expires_at) tickets
