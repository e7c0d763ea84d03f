-- ===== src/GreatTree/Invariant.antt =====
-- mechanics.rs and types.rs: what holds of every state between two actions.
use parlando.Common.{
  ◌≤◌, ◌≡◌, refl, Bool, true, false, List, [], ◌∷◌, some, length, contains, without, NoRepeat,
  NoRepeat-without, NoRepeat-push, contains-append, contains-without, length-append,
  length-retain-le, ◌==◌, arith, not, ◌&&◌, ◌<◌, ◌++◌, Bool-cases, inl, inr, nat_eq, subst, ap,
}
use parlando.GreatTree.Ids.{
  LimbId, RootId, Five, at, at-put, limb_eq, limb_eq_iff, root_eq_iff, eq_LimbId, eq_RootId,
}
use parlando.GreatTree.State.{GreatTreeState}
use parlando.GreatTree.Mechanics.{
  limb_for_root, sun, water, running, evict_sun, apply_set_sun, force_close_paired_root,
}

-- Every root has one limb: `limb_for_root` inverts the array, in both directions.
pub record IsPairing (bijection : Five RootId) : Type 0 where
  pub limb_of : RootId → LimbId
  pub limb_for : (root : RootId) → limb_for_root bijection root ≡ some (limb_of root)
  pub root_at : (root : RootId) → at bijection (limb_of root) ≡ root
  pub limb_at : (limb : LimbId) → limb_of (at bijection limb) ≡ limb

pub record IsValid (state : GreatTreeState) : Type 0 where
  pub pairing : IsPairing state.bijection
  pub sun_capped : length state.sun_holds ≤ 3
  pub water_capped : length state.water_holds ≤ 3
  pub sun_once : NoRepeat state.sun_holds
  pub water_once : NoRepeat state.water_holds
  pub running_thawed :
      (limb : LimbId) → running state (at state.bijection limb) ≡ true → sun state limb ≡ true
  pub watered : (limb : LimbId) → water state limb ≡ running state (at state.bijection limb)

-- Taking the sun from one limb, with the cascade, keeps the state well formed.
darken-IsValid :
    (s : GreatTreeState) (l : LimbId) (held : List LimbId)
    → IsValid s
    → length held ≤ 3
    → NoRepeat held
    → ((m : LimbId) → contains held m ≡ (sun s m && not (limb_eq m l)))
    → IsValid (force_close_paired_root (record s { sun_holds = held }) l)
unfolding force_close_paired_root
darken-IsValid s l held v c n h =
    let room = length-retain-le (λ r. not (r == at s.bijection l)) s.water_holds in
    record {
      pairing = v.pairing;
      sun_capped = c;
      water_capped = omega (arith, room, v.water_capped);
      sun_once = n;
      water_once = NoRepeat-without (at s.bijection l) s.water_holds v.water_once;
      running_thawed = λ m. ground (
        arith,
        h m,
        v.running_thawed m,
        contains-without (at s.bijection l) s.water_holds (at s.bijection m),
        limb_eq_iff m l,
        root_eq_iff (at s.bijection m) (at s.bijection l),
      );
      watered = λ m. ground (
        arith,
        v.watered m,
        at-put s.limb_water l m false,
        contains-without (at s.bijection l) s.water_holds (at s.bijection m),
        limb_eq_iff l m,
        root_eq_iff (at s.bijection m) (at s.bijection l),
        v.pairing.limb_at m,
        v.pairing.limb_at l,
      );
    }

-- A limb joins the sunlit ones where there is room.
light-IsValid :
    (s : GreatTreeState) (l : LimbId)
    → IsValid s
    → length s.sun_holds < 3
    → sun s l ≡ false
    → IsValid (record s { sun_holds = s.sun_holds ++ l ∷ [] })
light-IsValid s l v c n = record {
  pairing = v.pairing;
  sun_capped = omega (arith, length-append s.sun_holds (l ∷ []));
  water_capped = v.water_capped;
  sun_once = NoRepeat-push s.sun_holds l n v.sun_once;
  water_once = v.water_once;
  running_thawed = λ m. ground (arith, v.running_thawed m, contains-append s.sun_holds (l ∷ []) m);
  watered = v.watered;
}

record HasSunRoom (l : LimbId) (s : GreatTreeState) : Type 0 where
  valid : IsValid s
  room : length s.sun_holds < 3
  unlit : sun s l ≡ false

-- The eviction makes room where three limbs are held.
evict_sun-HasSunRoom :
    (s : GreatTreeState) (l : LimbId) (held : List LimbId)
    → s.sun_holds ≡ held
    → IsValid s
    → sun s l ≡ false
    → HasSunRoom l (evict_sun s held)
unfolding evict_sun
evict_sun-HasSunRoom s l [] e v n = record { valid = v; room = rw e (omega arith); unlit = n }
evict_sun-HasSunRoom s l (x ∷ rest) e v n = elim (Bool-cases (nat_eq (length s.sun_holds) 3)) [
  | inl full ↦
      let once : NoRepeat (x ∷ rest) = subst NoRepeat e v.sun_once in
      rw full (record {
        valid =
            darken-IsValid s x rest v (ground (arith, v.sun_capped)) once.1
              (λ m. ground (arith, limb_eq_iff x m, limb_eq_iff m x, once.0));
        room = ground (arith, ap length e);
        unlit = ground (arith, ap (λ (ls : List LimbId). contains ls l) e);
      })
  | inr spare ↦ rw spare (record { valid = v; room = ground (arith, v.sun_capped); unlit = n })
]

-- `SetSun` keeps the state well formed.
pub apply_set_sun-IsValid :
    (s : GreatTreeState) (l : LimbId) (lit : Bool) → IsValid s → IsValid (apply_set_sun s l lit)
unfolding apply_set_sun
apply_set_sun-IsValid s l true v = elim (Bool-cases (sun s l)) [
  | inl on ↦ rw on v
  | inr off ↦
      let h = evict_sun-HasSunRoom s l s.sun_holds refl v off in
      rw off (light-IsValid (evict_sun s s.sun_holds) l h.valid h.room h.unlit)
]
apply_set_sun-IsValid s l false v = elim (Bool-cases (sun s l)) [
  | inl on ↦ rw on (
      darken-IsValid s l (without l s.sun_holds) v
        (omega (arith, length-retain-le (λ m. not (m == l)) s.sun_holds, v.sun_capped))
        (NoRepeat-without l s.sun_holds v.sun_once) (contains-without l s.sun_holds))
  | inr off ↦ rw off v
]
