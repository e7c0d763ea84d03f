-- ===== src/Runtime/Audio/Registry/Ownership.antt =====
-- audio.rs: the latest connection owns its role until its own disconnect.
use parlando.Common.{
  ◌≡◌, refl, true, ◌&&◌, not, [], ◌∷◌, none, String, eq_String, ◌==◌, ==_iff, Map, insert, lookup,
  remove, lookup-insert, lookup-remove, if◌then◌else◌, arith, Option-cases, inl, inr,
}
use parlando.Runtime.Audio.Registry.{
  AudioPeer, Registry, or_default, is_empty, connect, owns, disconnect, is_current,
}

lookup-is_empty :
    {A : Type 0} (role : String) (peers : Map String A)
    → is_empty peers ≡ true
    → lookup role peers ≡ none
unfolding lookup
lookup-is_empty role [] h = refl
lookup-is_empty role (p ∷ peers) h = cc

module _ {Sender : Type 0} where
  -- A new connection takes its role over, and no other role changes hands.
  pub connect-is_current :
      (registry : Registry Sender) (id role generation id' role' generation' : String)
      (sender : Sender)
      → is_current (connect registry id role generation sender) id' role' generation' ≡ (
          if (id == id') && (role == role')
          then generation == generation'
          else is_current registry id' role' generation')
  unfolding connect is_current
  connect-is_current registry id role generation id' role' generation' sender =
      let p : AudioPeer Sender = record { generation = generation; sender = sender } in
      let peers = or_default (lookup id registry) in
      ground (
        arith,
        lookup-insert id id' (insert role p peers) registry,
        lookup-insert role role' p peers,
        lookup-is_empty {A = AudioPeer Sender} role' [] refl,
        ==_iff id id',
      )

  -- A disconnect takes the role from its own generation, and from no other connection.
  pub disconnect-is_current :
      (registry : Registry Sender) (id role generation id' role' generation' : String)
      → is_current (disconnect registry id role generation) id' role' generation' ≡ (
          is_current registry id' role' generation'
          && not ((id == id') && ((role == role') && (generation == generation'))))
  unfolding disconnect is_current
  disconnect-is_current registry id role generation id' role' generation' =
      elim (Option-cases (lookup id registry)) [
        | inl missing ↦ ground (arith, missing, ==_iff id id')
        | inr (peers, found) ↦
            let left = if owns (lookup role peers) generation then remove role peers else peers in
            elim (Option-cases (lookup role peers)) [
              | inl vacant ↦ ground (
                arith,
                found,
                vacant,
                lookup-remove id id' registry,
                lookup-insert id id' peers registry,
                lookup-is_empty role' peers,
                ==_iff id id',
                ==_iff role role',
              )
              | inr (p, held) ↦ ground (
                arith,
                found,
                held,
                lookup-remove id id' registry,
                lookup-insert id id' left registry,
                lookup-remove role role' peers,
                lookup-is_empty role' left,
                ==_iff id id',
                ==_iff role role',
                ==_iff p.generation generation,
                ==_iff p.generation generation',
                ==_iff generation generation',
              )
            ]
      ]
