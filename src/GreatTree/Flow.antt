-- ===== src/GreatTree/Flow.antt =====
-- mechanics.rs: `apply_set_flow` keeps the invariant, and what it answers.
use parlando.Common.{
  ◌≤◌, ◌<◌, ◌≡◌, refl, Bool, true, false, not, ◌&&◌, List, [], ◌∷◌, ◌++◌, some, length, contains,
  without, NoRepeat, NoRepeat-without, NoRepeat-push, contains-append, contains-without,
  length-append, length-retain-le, ◌==◌, arith, Bool-cases, inl, inr, nat_eq, subst, ap,
  if◌then◌else◌,
}
use parlando.GreatTree.Ids.{
  RootId, at, put, at-put, limb_eq_iff, root_eq, root_eq_iff, eq_LimbId, eq_RootId,
}
use parlando.GreatTree.State.{GreatTreeState}
use parlando.GreatTree.Mechanics.{
  Outcome, ok, err, root_frozen, sun, running, thawed, evict_root, push_root, close_root,
  apply_set_flow, ◌>>=◌,
}
use parlando.GreatTree.Invariant.{IsPairing, IsValid}

-- A root stops, and its limb dries.
dry-IsValid :
    (s : GreatTreeState) (r : RootId) (held : List RootId) (v : IsValid s)
    → length held ≤ 3
    → NoRepeat held
    → ((q : RootId) → contains held q ≡ (running s q && not (root_eq q r)))
    → IsValid
        (record s { water_holds = held; limb_water = put s.limb_water (v.pairing.limb_of r) false })
dry-IsValid s r held v c n h = record {
  pairing = v.pairing;
  sun_capped = v.sun_capped;
  water_capped = c;
  sun_once = v.sun_once;
  water_once = n;
  running_thawed = λ m. ground (arith, h (at s.bijection m), v.running_thawed m);
  watered = λ m. ground (
    arith,
    h (at s.bijection m),
    v.watered m,
    at-put s.limb_water (v.pairing.limb_of r) m false,
    limb_eq_iff (v.pairing.limb_of r) m,
    root_eq_iff (at s.bijection m) r,
    v.pairing.limb_at m,
    v.pairing.root_at r,
  );
}

-- A thawed root joins the running ones where there is room.
run-IsValid :
    (s : GreatTreeState) (r : RootId) (v : IsValid s) (p : IsPairing s.bijection)
    → length s.water_holds < 3
    → running s r ≡ false
    → sun s (p.limb_of r) ≡ true
    → IsValid (record s {
      water_holds = s.water_holds ++ r ∷ [];
      limb_water = put s.limb_water (p.limb_of r) true;
    })
run-IsValid s r v p c n lit = record {
  pairing = v.pairing;
  sun_capped = v.sun_capped;
  water_capped = omega (arith, length-append s.water_holds (r ∷ []));
  sun_once = v.sun_once;
  water_once = NoRepeat-push s.water_holds r n v.water_once;
  running_thawed = λ m. ground (
    arith,
    contains-append s.water_holds (r ∷ []) (at s.bijection m),
    v.running_thawed m,
    root_eq_iff r (at s.bijection m),
    p.limb_at m,
  );
  watered = λ m. ground (
    arith,
    contains-append s.water_holds (r ∷ []) (at s.bijection m),
    v.watered m,
    at-put s.limb_water (p.limb_of r) m true,
    limb_eq_iff (p.limb_of r) m,
    root_eq_iff r (at s.bijection m),
    p.limb_at m,
    p.root_at r,
  );
}

-- The holds that are left once there is room for one more: the oldest of three goes.
abbrev pub make_room : List RootId → List RootId
make_room [] = []
make_room (oldest ∷ rest) = if nat_eq (length rest) 2 then rest else oldest ∷ rest

-- What a request to open or close a gate answers, and the roots that then run.
pub data FlowAnswer (s : GreatTreeState) (r : RootId) : Bool → Outcome GreatTreeState → Type 0 where
  unchanged : (gate : Bool) → running s r ≡ gate → FlowAnswer s r gate (ok s)
  frozen : running s r ≡ false → thawed s r ≡ some false → FlowAnswer s r true (err root_frozen)
  opened :
      (t : GreatTreeState)
      → running s r ≡ false
      → thawed s r ≡ some true
      → IsValid t
      → t.water_holds ≡ make_room s.water_holds ++ r ∷ []
      → t.sun_holds ≡ s.sun_holds
      → FlowAnswer s r true (ok t)
  closed :
      (t : GreatTreeState)
      → running s r ≡ true
      → IsValid t
      → t.water_holds ≡ without r s.water_holds
      → t.sun_holds ≡ s.sun_holds
      → FlowAnswer s r false (ok t)

opened_answer :
    (s : GreatTreeState) (r : RootId) (held : List RootId) (v : IsValid s)
    → s.water_holds ≡ held
    → running s r ≡ false
    → sun s (v.pairing.limb_of r) ≡ true
    → FlowAnswer s r true (evict_root s held >>= λ next. push_root next r)
unfolding evict_root push_root thawed
opened_answer s r [] v e n lit =
    rw (push_root, v.pairing.limb_for r)
      (opened _ n (rw (thawed, v.pairing.limb_for r, lit))
        (run-IsValid s r v v.pairing (rw e (omega arith)) n lit) (rw e) refl)
opened_answer s r (oldest ∷ rest) v e n lit = elim (Bool-cases (nat_eq (length s.water_holds) 3)) [
  | inl full ↦
      let once : NoRepeat (oldest ∷ rest) = subst NoRepeat e v.water_once in
      let shorter : length rest ≤ 3 = ground (arith, ap length e, v.water_capped) in
      let dried = dry-IsValid s oldest rest v shorter once.1 (λ q. ground (
        arith,
        e,
        ap (λ (rs : List RootId). contains rs q) e,
        root_eq_iff oldest q,
        root_eq_iff q oldest,
        once.0,
      )) in
      rw (full, evict_root, v.pairing.limb_for oldest)
        (rw (push_root, v.pairing.limb_for r)
          (opened _ n (rw (thawed, v.pairing.limb_for r, lit))
            (run-IsValid _ r dried v.pairing (ground (arith, ap length e))
              (ground (arith, ap (λ (rs : List RootId). contains rs r) e)) lit)
            (ap (λ (rs : List RootId). rs ++ r ∷ []) (ground (arith, e, ap length e))) refl))
  | inr spare ↦
      rw (spare, evict_root, push_root, v.pairing.limb_for r)
        (opened _ n (rw (thawed, v.pairing.limb_for r, lit))
          (run-IsValid s r v v.pairing (ground (arith, v.water_capped)) n lit)
          (ap (λ (rs : List RootId). rs ++ r ∷ []) (ground (arith, e, ap length e))) refl)
]

-- In a well-formed state the request never panics, and is answered as `FlowAnswer` says.
pub apply_set_flow-FlowAnswer :
    (s : GreatTreeState) (r : RootId) (gate : Bool)
    → IsValid s
    → FlowAnswer s r gate (apply_set_flow s r gate)
unfolding apply_set_flow
apply_set_flow-FlowAnswer s r true v = elim (Bool-cases (running s r)) [
  | inl on ↦ rw on (unchanged true on)
  | inr off ↦ elim (Bool-cases (sun s (v.pairing.limb_of r))) [
    | inl lit ↦
        rw (off, thawed, v.pairing.limb_for r, lit) (opened_answer s r s.water_holds v refl off lit)
    | inr dark ↦
        rw (off, thawed, v.pairing.limb_for r, dark)
          (frozen off (rw (thawed, v.pairing.limb_for r, dark)))
  ]
]
apply_set_flow-FlowAnswer s r false v = elim (Bool-cases (running s r)) [
  | inl on ↦
      rw (on, close_root, v.pairing.limb_for r)
        (closed _ on
          (dry-IsValid s r (without r s.water_holds) v
            (omega (arith, length-retain-le (λ q. not (q == r)) s.water_holds, v.water_capped))
            (NoRepeat-without r s.water_holds v.water_once) (contains-without r s.water_holds))
          refl refl)
  | inr off ↦ rw off (unchanged false off)
]
