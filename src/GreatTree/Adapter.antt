-- ===== src/GreatTree/Adapter.antt =====
-- adapter.rs: the game as the server runs it. The random generator is a parameter.
use mathlib.Core.List.{Perm}
use parlando.Common.{
  ℕ, Bool, true, false, List, [], ◌∷◌, Option, none, some, length, retain, leb, map, if◌then◌else◌,
}
use parlando.Runtime.Role.{PlayerRole, a, b, role_eq, ActionRejection}
use parlando.GreatTree.Ids.{
  LimbId, RootId, Five, all_limbs, all_roots, at, put, eq_LimbId, eq_RootId,
}
use parlando.GreatTree.State.{
  CrownSeat, role, GreatTreeState, GreatTreeAction, set_sun, set_flow, LimbView, RootView,
  GreatTreeObservation, crown, root,
}
use parlando.GreatTree.Mechanics.{
  Outcome, ok, err, panicked, sun, water, flowered, thawed, running, apply_set_sun, apply_set_flow,
}

abbrev pub roots_of : Five RootId → List RootId
roots_of v = v.slot0 ∷ v.slot1 ∷ v.slot2 ∷ v.slot3 ∷ v.slot4 ∷ []

abbrev pub unshuffled : Five RootId
unshuffled = record {
  slot0 = RootId.hand;
  slot1 = RootId.knot;
  slot2 = RootId.tip;
  slot3 = RootId.swollen;
  slot4 = RootId.deep;
}

-- The crate `rand`: `shuffle` permutes its array, and `draw_limb` is
-- `LimbId::ALL[rng.gen_range(0..LimbId::ALL.len())]`, a range that has no other values.
pub record Rand : Type 1 where
  pub Rng : Type 0
  pub seed_from_u64 : ℕ → Rng
  pub shuffle : Five RootId → Rng → Five RootId × Rng
  pub draw_limb : Rng → LimbId × Rng
  pub shuffle-perm : (v : Five RootId) (g : Rng) → Perm (roots_of v) (roots_of (shuffle v g).0)

-- `bijection::generate`.
unfoldable pub generate : Rand → ℕ → LimbId × Five RootId
generate rand seed =
    let (roots, rng) = rand.shuffle unshuffled (rand.seed_from_u64 seed) in
    ((rand.draw_limb rng).0, roots)

abbrev pub root_role : GreatTreeState → PlayerRole
root_role state = elim (role state.crown_seat) [ a ↦ b | b ↦ a ]

abbrev pub role_for_action : GreatTreeState → GreatTreeAction → PlayerRole
role_for_action state (set_sun limb lit) = role state.crown_seat
role_for_action state (set_flow r gate) = root_role state

abbrev pub all_dry : Five Bool
all_dry = record { slot0 = false; slot1 = false; slot2 = false; slot3 = false; slot4 = false }

unfoldable pub initial_state : Rand → CrownSeat → ℕ → GreatTreeState
unfolding generate
initial_state rand seat seed =
    let (limb, bijection) = generate rand seed in
    record {
      crown_seat = seat;
      sun_holds = limb ∷ [];
      water_holds = at bijection limb ∷ [];
      limb_water = put all_dry limb true;
      bijection = bijection;
    }

-- What `Game::apply_action` gives the server.
pub data Reply : Type 0 where
  accepted : GreatTreeState → Reply
  rejected : ActionRejection → Reply
  panics : Reply

abbrev pub reply : Outcome GreatTreeState → Reply
reply (ok next) = accepted next
reply (err _) = rejected (record { code = "root_frozen" })
reply panicked = panics

abbrev transition : GreatTreeState → GreatTreeAction → Outcome GreatTreeState
transition state (set_sun limb lit) = ok (apply_set_sun state limb lit)
transition state (set_flow r gate) = apply_set_flow state r gate

abbrev log_entry : PlayerRole → GreatTreeAction → Reply → List (PlayerRole × GreatTreeAction)
log_entry actor action (accepted _) = (actor, action) ∷ []
log_entry actor action _ = []

abbrev logged : PlayerRole → GreatTreeAction → Reply → Reply × List (PlayerRole × GreatTreeAction)
logged actor action result = (result, log_entry actor action result)

-- The reply, and what is logged: the actor and the action of each accepted one.
unfoldable pub apply_action :
    GreatTreeState → GreatTreeAction → PlayerRole → Reply × List (PlayerRole × GreatTreeAction)
apply_action state action actor =
    if role_eq actor (role_for_action state action)
    then logged actor action (reply (transition state action))
    else (rejected (record { code = "wrong_role" }), [])

abbrev limb_view : GreatTreeState → LimbId → LimbView
limb_view state limb = record { id = limb; sun = sun state limb; water = water state limb }

-- `none` is a panic of `thawed`.
abbrev root_views : GreatTreeState → List RootId → Option (List RootView)
root_views state [] = some []
root_views state (r ∷ rs) = elim (thawed state r) [
  | none ↦ none
  | some warm ↦ elim (root_views state rs) [
    | none ↦ none
    | some views ↦ some (record { id = r; thawed = warm; running = running state r } ∷ views)
  ]
]

unfoldable pub observation : GreatTreeState → PlayerRole → Option GreatTreeObservation
observation state viewer =
    if role_eq viewer (role state.crown_seat)
    then some (crown (map (limb_view state) all_limbs))
    else elim (root_views state all_roots) [ none ↦ none | some views ↦ some (root views) ]

unfoldable pub completion : GreatTreeState → Option (List LimbId)
completion state =
    let flowered_limbs = retain (flowered state) all_limbs in
    if leb 3 (length flowered_limbs) then some flowered_limbs else none
