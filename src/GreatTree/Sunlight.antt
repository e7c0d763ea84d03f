-- ===== src/GreatTree/Sunlight.antt =====
-- mechanics.rs: what `SetSun` changes, on every branch.
use parlando.Common.{
  ◌≡◌, refl, Bool, true, false, ◌&&◌, List, [], ◌∷◌, ◌++◌, length, contains, without,
  contains-append, contains-without, arith, nat_eq, subst, ap, if◌then◌else◌, NoRepeat,
}
use parlando.GreatTree.Ids.{LimbId, RootId, at, limb_eq_iff, root_eq_iff, eq_LimbId, eq_RootId}
use parlando.GreatTree.State.{GreatTreeState}
use parlando.GreatTree.Mechanics.{sun, running, evict_sun, apply_set_sun}
use parlando.GreatTree.Invariant.{IsValid}

-- The sunlit limbs once there is room for one more: the oldest of three goes.
abbrev pub make_room : List LimbId → List LimbId
make_room [] = []
make_room (oldest ∷ rest) = if nat_eq (length rest) 2 then rest else oldest ∷ rest

-- The sunlit limbs after a request.
abbrev pub sun_after : List LimbId → LimbId → Bool → List LimbId
sun_after held limb true = if contains held limb then held else make_room held ++ limb ∷ []
sun_after held limb false = without limb held

evict_sun-sun_holds :
    (s : GreatTreeState) (held : List LimbId)
    → s.sun_holds ≡ held
    → (evict_sun s held).sun_holds ≡ make_room held
unfolding evict_sun
evict_sun-sun_holds s [] e = e
evict_sun-sun_holds s (x ∷ rest) e = ground (arith, e, ap length e)

without_absent : (l : LimbId) (held : List LimbId) → contains held l ≡ false → without l held ≡ held
without_absent l [] c = refl
without_absent l (x ∷ held) c = ground (arith, without_absent l held, limb_eq_iff x l)

pub apply_set_sun-sun_holds :
    (s : GreatTreeState) (l : LimbId) (lit : Bool)
    → (apply_set_sun s l lit).sun_holds ≡ sun_after s.sun_holds l lit
unfolding apply_set_sun
apply_set_sun-sun_holds s l true = ground (arith, evict_sun-sun_holds s s.sun_holds refl)
apply_set_sun-sun_holds s l false = ground (arith, without_absent l s.sun_holds)

-- The cascade on the roots: those whose limb keeps its sun run on, and no other.
evict_sun-running :
    (s : GreatTreeState) (held : List LimbId) (v : IsValid s)
    → s.sun_holds ≡ held
    → (r : RootId)
    → running (evict_sun s held) r ≡ (running s r && sun (evict_sun s held) (v.pairing.limb_of r))
unfolding evict_sun
evict_sun-running s [] v e r =
    ground (arith, v.running_thawed (v.pairing.limb_of r), v.pairing.root_at r)
evict_sun-running s (x ∷ rest) v e r =
    let once : NoRepeat (x ∷ rest) = subst NoRepeat e v.sun_once in
    let held = ap (λ (ls : List LimbId). contains ls (v.pairing.limb_of r)) e in
    ground (
      arith,
      once.0,
      held,
      contains-without (at s.bijection x) s.water_holds r,
      v.running_thawed (v.pairing.limb_of r),
      v.pairing.root_at r,
      v.pairing.limb_at x,
      limb_eq_iff x (v.pairing.limb_of r),
      root_eq_iff r (at s.bijection x),
    )

pub apply_set_sun-running :
    (s : GreatTreeState) (l : LimbId) (lit : Bool) (v : IsValid s) (r : RootId)
    → let t = apply_set_sun s l lit in running t r ≡ (running s r && sun t (v.pairing.limb_of r))
unfolding apply_set_sun
apply_set_sun-running s l true v r =
    let next = evict_sun s s.sun_holds in
    ground (
      arith,
      evict_sun-running s s.sun_holds v refl r,
      contains-append next.sun_holds (l ∷ []) (v.pairing.limb_of r),
      v.running_thawed (v.pairing.limb_of r),
      v.pairing.root_at r,
      limb_eq_iff l (v.pairing.limb_of r),
    )
apply_set_sun-running s l false v r = ground (
  arith,
  contains-without (at s.bijection l) s.water_holds r,
  contains-without l s.sun_holds (v.pairing.limb_of r),
  v.running_thawed (v.pairing.limb_of r),
  v.pairing.root_at r,
  v.pairing.limb_at l,
  limb_eq_iff (v.pairing.limb_of r) l,
  root_eq_iff r (at s.bijection l),
)
