-- ===== src/Runtime/Tickets/Laws.antt =====
-- auth.rs: what an upgrade ticket is good for.
use parlando.Common.{
  ℕ, ◌+◌, ◌<◌, ◌≡◌, ◌≢◌, false, none, some, String, eq_String, ==_iff, lookup, retain_values,
  lookup-insert, lookup-remove, lookup-retain_values, HasUniqueKeys, retain_values-HasUniqueKeys,
  ltb, arith,
}
use parlando.Runtime.Tickets.{
  UpgradePurpose, UpgradeTicketClaims, Tickets, eq_UpgradePurpose, same_scope, is_other_scope,
  ticket_lifetime_seconds, issue, consume,
}

module _ (digest : String → String) where
  -- A ticket is good for one use: whatever the first attempt asked for, and whether or not it was
  -- admitted, a second attempt with the ticket fails, at any time and for any purpose.
  pub consume_once :
      (tickets : Tickets) (ticket room room' : String) (purpose purpose' : UpgradePurpose)
      (now later : ℕ)
      → (consume digest
          (consume digest tickets ticket purpose room now).0
          ticket
          purpose'
          room'
          later).1
        ≡ none
  unfolding consume
  consume_once tickets ticket room room' purpose purpose' now later = ground (
    arith,
    lookup-remove (digest ticket) (digest ticket) tickets,
    ==_iff (digest ticket) (digest ticket),
  )

  -- A ticket admits its holder until its lifetime ends, to the room and for the purpose that it was
  -- issued for, with the claims of its issue.
  pub issue-consume :
      (tickets : Tickets) (claims : UpgradeTicketClaims) (ticket : String) (now later : ℕ)
      → later < now + ticket_lifetime_seconds
      → (consume digest
          (issue digest tickets claims ticket now)
          ticket
          claims.purpose
          claims.public_session_id
          later).1
        ≡ some (record claims { expires_at = now + ticket_lifetime_seconds })
  unfolding issue consume
  issue-consume tickets claims ticket now later h = ground (
    arith,
    lookup-insert (digest ticket) (digest ticket)
        (record claims { expires_at = now + ticket_lifetime_seconds })
        (retain_values
          (is_other_scope (record claims { expires_at = now + ticket_lifetime_seconds }))
          (retain_values (λ (c : UpgradeTicketClaims). ltb now c.expires_at) tickets)),
    ==_iff (digest ticket) (digest ticket),
    ==_iff claims.public_session_id claims.public_session_id,
    ==_iff claims.purpose claims.purpose,
  )

  -- Every admission is of a stored ticket, before its expiry, in its room and for its purpose.
  pub consume_sound :
      (tickets : Tickets) (ticket room : String) (purpose : UpgradePurpose) (now : ℕ)
      (claims : UpgradeTicketClaims)
      → (consume digest tickets ticket purpose room now).1 ≡ some claims
      → (lookup (digest ticket) tickets ≡ some claims)
        × (now < claims.expires_at)
        × (claims.purpose ≡ purpose)
        × (claims.public_session_id ≡ room)
  unfolding consume
  consume_sound tickets ticket room purpose now claims h =
      ground (arith, ==_iff claims.public_session_id room, ==_iff claims.purpose purpose)

  -- A new ticket supersedes the older ones of its room, participant and purpose: none of them is
  -- admitted any more.
  pub issue_supersedes :
      (tickets : Tickets) (claims old_claims : UpgradeTicketClaims) (ticket old room : String)
      (purpose : UpgradePurpose) (now later : ℕ)
      → HasUniqueKeys tickets
      → digest old ≢ digest ticket
      → (consume digest (issue digest tickets claims ticket now) old purpose room later).1
        ≡ some old_claims
      → same_scope old_claims claims ≡ false
  unfolding issue
  issue_supersedes tickets claims old_claims ticket old room purpose now later u n h =
      let stamped : UpgradeTicketClaims = record claims {
        expires_at = now + ticket_lifetime_seconds;
      } in
      let live = retain_values (λ (c : UpgradeTicketClaims). ltb now c.expires_at) tickets in
      ground (
        arith,
        (consume_sound _ old room purpose later old_claims h).0,
        lookup-insert (digest ticket) (digest old) stamped
            (retain_values (is_other_scope stamped) live),
        lookup-retain_values (is_other_scope stamped) (digest old) live
            (retain_values-HasUniqueKeys _ tickets u),
        ==_iff (digest ticket) (digest old),
      )

  -- Issue keeps every other live ticket: of another scope, and not expired.
  pub issue_keeps :
      (tickets : Tickets) (claims : UpgradeTicketClaims) (ticket other : String) (now : ℕ)
      (kept : UpgradeTicketClaims)
      → HasUniqueKeys tickets
      → digest other ≢ digest ticket
      → lookup (digest other) tickets ≡ some kept
      → now < kept.expires_at
      → same_scope kept claims ≡ false
      → lookup (digest other) (issue digest tickets claims ticket now) ≡ some kept
  unfolding issue
  issue_keeps tickets claims ticket other now kept u n e x s =
      let stamped : UpgradeTicketClaims = record claims {
        expires_at = now + ticket_lifetime_seconds;
      } in
      let live = retain_values (λ (c : UpgradeTicketClaims). ltb now c.expires_at) tickets in
      ground (
        arith,
        lookup-insert (digest ticket) (digest other) stamped
            (retain_values (is_other_scope stamped) live),
        lookup-retain_values (is_other_scope stamped) (digest other) live
            (retain_values-HasUniqueKeys _ tickets u),
        lookup-retain_values (λ (c : UpgradeTicketClaims). ltb now c.expires_at) (digest other)
            tickets u,
        ==_iff (digest ticket) (digest other),
      )
