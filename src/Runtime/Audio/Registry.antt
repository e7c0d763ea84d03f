-- ===== src/Runtime/Audio/Registry.antt =====
-- audio.rs: `AudioSessionRegistry`. The outbound channel is `tokio`'s: a sender is a value of the
-- parameter `Sender`, and `try_send` gives the sender after an attempt, taken or dropped.
-- A generation is the UUID that `connect` draws, an argument here.
pub mod Ownership
pub mod Relay
use parlando.Common.{
  ℕ, Bool, true, false, ◌&&◌, not, List, [], ◌∷◌, map, Option, none, some, String, eq_String, ◌==◌,
  Map, insert, lookup, remove, is_some, if◌then◌else◌,
}

pub data AudioOutbound : Type 0 where
  binary : List ℕ → AudioOutbound
  text : String → AudioOutbound

pub record AudioPeer (Sender : Type 0) : Type 0 where
  pub generation : String
  pub sender : Sender

-- The sessions, each with its peers by role.
abbrev pub Registry : Type 0 → Type 0
Registry Sender = Map String (Map String (AudioPeer Sender))

abbrev pub or_default : {A : Type 0} → Option (List A) → List A
or_default none = []
or_default (some xs) = xs

abbrev pub is_empty : {A : Type 0} → List A → Bool
is_empty [] = true
is_empty (_ ∷ _) = false

module _ {Sender : Type 0} where
  -- `sessions.get(id).and_then(|session| session.peers.get(role))`.
  unfoldable pub peer : Registry Sender → String → String → Option (AudioPeer Sender)
  peer registry id role = elim (lookup id registry) [ none ↦ none | some peers ↦ lookup role peers ]

  unfoldable pub connect : Registry Sender → String → String → String → Sender → Registry Sender
  connect registry id role generation sender =
      insert id
        (insert role (record { generation = generation; sender = sender })
          (or_default (lookup id registry)))
        registry

  abbrev pub owns : Option (AudioPeer Sender) → String → Bool
  owns none generation = false
  owns (some p) generation = p.generation == generation

  unfoldable pub disconnect : Registry Sender → String → String → String → Registry Sender
  disconnect registry id role generation = elim (lookup id registry) [
    | none ↦ registry
    | some peers ↦
        let left = if owns (lookup role peers) generation then remove role peers else peers in
        if is_empty left then remove id registry else insert id left registry
  ]

  unfoldable pub is_current : Registry Sender → String → String → String → Bool
  unfolding peer
  is_current registry id role generation = owns (peer registry id role) generation

  unfoldable pub has_human_pair : Registry Sender → String → Bool
  has_human_pair registry id = elim (lookup id registry) [
    | none ↦ false
    | some peers ↦ is_some (lookup "A" peers) && is_some (lookup "B" peers)
  ]

abbrev pub partner_role : String → Option String
partner_role role = if role == "A" then some "B" else if role == "B" then some "A" else none

module _ {Sender : Type 0} (try_send : Sender → AudioOutbound → Sender) where
  abbrev pub push : AudioOutbound → AudioPeer Sender → AudioPeer Sender
  push message p = record p { sender = try_send p.sender message }

  -- An attempt to send to one role.
  unfoldable pub send_to : Registry Sender → String → String → AudioOutbound → Registry Sender
  send_to registry id role message = elim (lookup id registry) [
    | none ↦ registry
    | some peers ↦ elim (lookup role peers) [
      | none ↦ registry
      | some p ↦ insert id (insert role (push message p) peers) registry
    ]
  ]

  unfoldable pub relay_partner : Registry Sender → String → String → List ℕ → Registry Sender
  relay_partner registry id sender_role bytes = elim (partner_role sender_role) [
    | none ↦ registry
    | some partner ↦ send_to registry id partner (binary bytes)
  ]

  unfoldable pub send_control : Registry Sender → String → String → String → Registry Sender
  send_control registry id role message = send_to registry id role (text message)

  abbrev push_all : List ℕ → Map String (AudioPeer Sender) → Map String (AudioPeer Sender)
  push_all bytes [] = []
  push_all bytes ((role, p) ∷ peers) = (role, push (binary bytes) p) ∷ push_all bytes peers

  unfoldable pub publish_agent : Registry Sender → String → List ℕ → Registry Sender
  publish_agent registry id bytes = elim (lookup id registry) [
    | none ↦ registry
    | some peers ↦ insert id (push_all bytes peers) registry
  ]
