-- ===== src/Runtime/Audio/Registry/Relay.antt =====
-- audio.rs: whom a relayed frame reaches.
use parlando.Common.{
  ℕ, ◌≡◌, refl, ◌∙◌, Bool, false, ◌&&◌, ◌||◌, List, Option, none, some, String, eq_String, ◌==◌,
  ==_iff, insert, lookup, lookup-insert, if◌then◌else◌, arith, Bool-cases, Option-cases, inl, inr,
}
use parlando.Runtime.Audio.Registry.{
  AudioOutbound, AudioPeer, Registry, peer, partner_role, push, send_to, relay_partner, binary,
}

module _ {Sender : Type 0} (try_send : Sender → AudioOutbound → Sender) where
  abbrev pub pushed : AudioOutbound → Option (AudioPeer Sender) → Option (AudioPeer Sender)
  pushed message none = none
  pushed message (some p) = some (push try_send message p)

  -- An attempt to send to a role changes the sender of that role in that session, and nothing else.
  pub send_to-peer :
      (registry : Registry Sender) (id role id' role' : String) (message : AudioOutbound)
      → peer (send_to try_send registry id role message) id' role' ≡ (
          if (id == id') && (role == role')
          then pushed message (peer registry id' role')
          else peer registry id' role')
  unfolding send_to peer
  send_to-peer registry id role id' role' message = elim (Option-cases (lookup id registry)) [
    | inl missing ↦ ground (arith, missing, ==_iff id id')
    | inr (peers, found) ↦ elim (Option-cases (lookup role peers)) [
      | inl vacant ↦ ground (arith, found, vacant, ==_iff id id', ==_iff role role')
      | inr (p, held) ↦ ground (
        arith,
        found,
        held,
        lookup-insert id id' (insert role (push try_send message p) peers) registry,
        lookup-insert role role' (push try_send message p) peers,
        ==_iff id id',
        ==_iff role role',
      )
    ]
  ]

  -- The role that hears a frame: B for A, A for B, and nobody for the others.
  abbrev pub hears : String → String → Bool
  hears sender_role role =
      (sender_role == "A" && role == "B") || (sender_role == "B" && role == "A")

  eq_comm : (x y : String) → (x == y) ≡ (y == x)
  eq_comm x y = ground (arith, ==_iff x y, ==_iff y x)

  or_false : (x y : Bool) → y ≡ false → (x || y) ≡ x
  or_false x y h = ground arith

  hears-partner_role :
      (sender_role role : String)
      → hears sender_role role
        ≡ (elim (partner_role sender_role) [ none ↦ false | some r ↦ r == role ])
  hears-partner_role sender_role role = elim (Bool-cases (sender_role == "A")) [
    | inl first ↦
        let same : sender_role ≡ "A" = (==_iff sender_role "A").0 first in
        rw same (or_false (role == "B") _ refl ∙ eq_comm role "B")
    | inr other ↦ elim (Bool-cases (sender_role == "B")) [
      | inl second ↦
          let same : sender_role ≡ "B" = (==_iff sender_role "B").0 second in
          rw same (eq_comm role "A")
      | inr nobody ↦ rw (other, nobody) refl
    ]
  ]

  -- A relayed frame is offered to the partner in the same session alone: never to the sender, to a
  -- role that is not human, or to another session.
  pub relay_partner-peer :
      (registry : Registry Sender) (id sender_role id' role' : String) (bytes : List ℕ)
      → peer (relay_partner try_send registry id sender_role bytes) id' role' ≡ (
          if (id == id') && hears sender_role role'
          then pushed (binary bytes) (peer registry id' role')
          else peer registry id' role')
  unfolding relay_partner
  relay_partner-peer registry id sender_role id' role' bytes =
      rw (hears-partner_role sender_role role') (elim (Option-cases (partner_role sender_role)) [
        | inl nobody ↦ ground (arith, nobody)
        | inr (r, e) ↦ ground (arith, e, send_to-peer registry id r id' role' (binary bytes))
      ])
