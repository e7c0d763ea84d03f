-- ===== src/GreatTree/Requests.antt =====
-- adapter.rs: requests that the game accepts, and where they lead.
use parlando.Common.{
  ℕ, suc, ◌<◌, ◌≡◌, refl, Bool, true, false, List, [], ◌∷◌, ◌++◌, some, length, arith, ◌∙◌, ap,
  length-append,
}
use parlando.Runtime.Role.{PlayerRole, role_eq, role_eq_iff}
use parlando.GreatTree.Ids.{LimbId, RootId, at, eq_RootId, eq_LimbId}
use parlando.GreatTree.State.{GreatTreeState, GreatTreeAction, set_flow}
use parlando.GreatTree.Mechanics.{Outcome, ok, sun, running, thawed, evict_sun, apply_set_sun}
use parlando.GreatTree.Invariant.{IsValid}
use parlando.GreatTree.Flow.{
  FlowAnswer, unchanged, frozen, opened, closed, apply_set_flow-FlowAnswer, make_room,
}
use parlando.GreatTree.Adapter.{accepted, role_for_action, apply_action}

-- The states that a number of accepted requests lead to.
pub data Moves (s : GreatTreeState) : ℕ → GreatTreeState → Type 0 where
  stay : Moves s 0 s
  move :
      {n : ℕ} {t u : GreatTreeState} (action : GreatTreeAction) (actor : PlayerRole)
      → Moves s n t
      → (apply_action t action actor).0 ≡ accepted u
      → Moves s (suc n) u

pub own_request :
    (s : GreatTreeState) (action : GreatTreeAction)
    → role_eq (role_for_action s action) (role_for_action s action) ≡ true
own_request s action = (role_eq_iff _ _).1 refl

-- A request that opens one more root, where a sunlit limb's root is closed and there is room.
pub record Opened (s : GreatTreeState) (r : RootId) (t : GreatTreeState) : Type 0 where
  pub request :
      (apply_action s (set_flow r true) (role_for_action s (set_flow r true))).0 ≡ accepted t
  pub valid : IsValid t
  pub more : length t.water_holds ≡ suc (length s.water_holds)

answer-opened :
    (s : GreatTreeState) (r : RootId) {gate : Bool} {result : Outcome GreatTreeState}
    → FlowAnswer s r gate result
    → gate ≡ true
    → running s r ≡ false
    → thawed s r ≡ some true
    → (t : GreatTreeState) × (result ≡ ok t)
      × IsValid t
      × (t.water_holds ≡ make_room s.water_holds ++ r ∷ [])
answer-opened s r (unchanged gate on) g off warm = absurd (ground arith)
answer-opened s r (frozen n cold) g off warm = absurd (ground arith)
answer-opened s r (opened t n w v e u) g off warm = (t, refl, v, e)
answer-opened s r (closed t n v e u) g off warm = cc

length-make_room :
    (held : List RootId) (r : RootId)
    → length held < 3
    → length (make_room held ++ r ∷ []) ≡ suc (length held)
length-make_room [] r h = refl
length-make_room (x ∷ held) r h =
    ground (arith, length-append (x ∷ held) (r ∷ []), length-append held (r ∷ []))

thawed_root :
    (s : GreatTreeState) (l : LimbId)
    → IsValid s
    → sun s l ≡ true
    → thawed s (at s.bijection l) ≡ some true
unfolding thawed
thawed_root s l v lit = rw (thawed, v.pairing.limb_for (at s.bijection l), v.pairing.limb_at l, lit)

pub open_root :
    (s : GreatTreeState) (l : LimbId)
    → IsValid s
    → sun s l ≡ true
    → running s (at s.bijection l) ≡ false
    → length s.water_holds < 3
    → (t : GreatTreeState) × Opened s (at s.bijection l) t
unfolding apply_action
open_root s l v lit off room =
    let r = at s.bijection l in
    let warm : thawed s r ≡ some true = thawed_root s l v lit in
    let (t, answered, valid, holds) =
      answer-opened s r (apply_set_flow-FlowAnswer s r true v) refl off warm in
    (
      t,
      record {
        request = rw (own_request s (set_flow r true), answered);
        valid = valid;
        more = ap length holds ∙ length-make_room s.water_holds r room;
      },
    )

-- Sun on one more limb, while fewer than three have it.
abbrev pub lit_state : GreatTreeState → LimbId → GreatTreeState
lit_state s l = record s { sun_holds = s.sun_holds ++ l ∷ [] }

evict_sun-room :
    (s : GreatTreeState) (held : List LimbId) → length s.sun_holds < 3 → evict_sun s held ≡ s
unfolding evict_sun
evict_sun-room s [] h = refl
evict_sun-room s (x ∷ rest) h = ground arith

pub apply_set_sun-room :
    (s : GreatTreeState) (l : LimbId)
    → length s.sun_holds < 3
    → sun s l ≡ false
    → apply_set_sun s l true ≡ lit_state s l
unfolding apply_set_sun
apply_set_sun-room s l room dark = rw (dark, evict_sun-room s s.sun_holds room)
