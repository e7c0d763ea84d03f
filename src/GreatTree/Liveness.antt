-- ===== src/GreatTree/Liveness.antt =====
-- adapter.rs: a game can always be finished.
use parlando.Common.{
  ℕ, zero, suc, ◌+◌, ◌-◌, ◌*◌, ◌≤◌, ◌<◌, ◌≡◌, refl, Bool, true, false, List, [], ◌∷◌, none, some,
  length, contains, NoRepeat, find, arith, Bool-cases, Option-cases, inl, inr, ◌∙◌, ap, sym, subst,
  not, ◌&&◌, contains-append,
}
use mathlib.Core.Path.{fun_ext}
use parlando.GreatTree.Ids.{LimbId, all_limbs, at, limb_eq_iff, eq_RootId, eq_LimbId}
use parlando.GreatTree.State.{CrownSeat, GreatTreeState, set_sun, set_flow}
use parlando.GreatTree.Mechanics.{sun, running}
use parlando.GreatTree.Invariant.{IsValid, apply_set_sun-IsValid}
use parlando.GreatTree.Adapter.{Rand, accepted, role_for_action, apply_action, completion}
use parlando.GreatTree.Play.{Reach, Reach-IsValid, completion_three, tally, tally-or, tally-running}
use parlando.GreatTree.Requests.{
  Moves, stay, move, own_request, open_root, lit_state, apply_set_sun-room,
}

tally-contains : (held : List LimbId) → NoRepeat held → tally (contains held) ≡ length held
tally-contains [] h = refl
tally-contains (l ∷ held) h =
    tally-or (contains (l ∷ held)) (contains held) l h.0 (λ m. refl)
    ∙ ap suc (tally-contains held h.1)

find-passes :
    (p : LimbId → Bool) (limbs : List LimbId) (l : LimbId) → find p limbs ≡ some l → p l ≡ true
find-passes p [] l h = cc
find-passes p (x ∷ limbs) l h = elim (Bool-cases (p x)) [
  | inl here ↦ let same : x ≡ l = ground arith in subst (λ m. p m ≡ true) same here
  | inr there ↦ find-passes p limbs l (ground arith)
]

find-none : (p : LimbId → Bool) → find p all_limbs ≡ none → (l : LimbId) → p l ≡ false
find-none p h LimbId.spire = ground arith
find-none p h LimbId.hook = ground arith
find-none p h LimbId.fork = ground arith
find-none p h LimbId.cradle = ground arith
find-none p h LimbId.nub = ground arith

-- One more root runs after at most two requests.
record Progress (s : GreatTreeState) (n : ℕ) (t : GreatTreeState) : Type 0 where
  moves : Moves s n t
  valid : IsValid t
  more : length t.water_holds ≡ suc (length s.water_holds)

tally-eq : (p q : LimbId → Bool) → ((l : LimbId) → p l ≡ q l) → tally p ≡ tally q
tally-eq p q h = ap tally (fun_ext h)

tally_full : (p : LimbId → Bool) → ((l : LimbId) → p l ≡ true) → tally p ≡ 5
tally_full p h =
    ground (arith, h LimbId.spire, h LimbId.hook, h LimbId.fork, h LimbId.cradle, h LimbId.nub)

abbrev waits : GreatTreeState → LimbId → Bool
waits s l = sun s l && not (running s (at s.bijection l))

-- Where no sunlit limb waits for water, as many limbs are sunlit as roots run.
sunlit-running :
    (s : GreatTreeState)
    → IsValid s
    → ((l : LimbId) → waits s l ≡ false)
    → length s.sun_holds ≡ length s.water_holds
sunlit-running s v served =
    sym (tally-contains s.sun_holds v.sun_once)
    ∙ tally-eq (contains s.sun_holds) (λ l. contains s.water_holds (at s.bijection l))
        (λ l. ground (arith, served l, v.running_thawed l))
    ∙ tally-running s.bijection v.pairing s.water_holds v.water_once

-- A limb without sun can have it and its root be opened.
light_and_open :
    (s : GreatTreeState) (l : LimbId)
    → IsValid s
    → sun s l ≡ false
    → length s.sun_holds < 3
    → length s.water_holds < 3
    → (t : GreatTreeState) × Progress s 2 t
unfolding apply_action
light_and_open s l v dark room spare =
    let same = apply_set_sun-room s l room dark in
    let valid : IsValid (lit_state s l) = subst IsValid same (apply_set_sun-IsValid s l true v) in
    let lit : sun (lit_state s l) l ≡ true =
      ground (arith, contains-append s.sun_holds (l ∷ []) l, limb_eq_iff l l) in
    let off : running s (at s.bijection l) ≡ false = ground (arith, v.running_thawed l) in
    let (t, done) = open_root (lit_state s l) l valid lit off spare in
    let first : (apply_action s (set_sun l true) (role_for_action s (set_sun l true))).0
        ≡ accepted (lit_state s l) =
      rw (own_request s (set_sun l true), same) in
    (
      t,
      record {
        moves =
            move (set_flow (at s.bijection l) true) _ (move (set_sun l true) _ stay first)
              done.request;
        valid = done.valid;
        more = done.more;
      },
    )

progress :
    (s : GreatTreeState)
    → IsValid s
    → length s.water_holds < 3
    → (n : ℕ) × (t : GreatTreeState) × Progress s n t × (n ≤ 2)
progress s v room = elim (Option-cases (find (waits s) all_limbs)) [
  | inr (l, e) ↦
      let waiting = find-passes (waits s) all_limbs l e in
      let (t, done) = open_root s l v (ground arith) (ground arith) room in
      (
        1,
        t,
        record {
          moves = move (set_flow (at s.bijection l) true) _ stay done.request;
          valid = done.valid;
          more = done.more;
        },
        omega arith,
      )
  | inl served ↦
      let sunlit = sunlit-running s v (find-none (waits s) served) in
      elim (Option-cases (find (λ l. not (sun s l)) all_limbs)) [
        | inr (l, e) ↦
            let dark = find-passes (λ l. not (sun s l)) all_limbs l e in
            let (t, done) = light_and_open s l v (ground arith) (omega (arith, sunlit)) room in
            (2, t, done, omega arith)
        | inl bright ↦
            let five =
              tally_full (sun s)
                (λ l. let lit = find-none (λ m. not (sun s m)) bright l in ground arith) in
            absurd (omega (arith, five, sunlit, tally-contains s.sun_holds v.sun_once))
      ]
]

Moves-append :
    {s t u : GreatTreeState} {m n : ℕ}
    → Moves s m t
    → Moves t n u
    → (k : ℕ) × (k ≡ n + m) × Moves s k u
Moves-append {m} p stay = (m, omega arith, p)
Moves-append p (move action actor q e) =
    let (k, sum, r) = Moves-append p q in (suc k, omega (arith, sum), move action actor r e)

-- Three roots run.
record Finished (s : GreatTreeState) (n : ℕ) (t : GreatTreeState) : Type 0 where
  moves : Moves s n t
  valid : IsValid t
  three : length t.water_holds ≡ 3

finish :
    (missing : ℕ) (s : GreatTreeState)
    → IsValid s
    → length s.water_holds + missing ≡ 3
    → (n : ℕ) × (t : GreatTreeState) × Finished s n t × (n ≤ 2 * missing)
finish zero s v e =
    (0, s, record { moves = stay; valid = v; three = omega (arith, e) }, omega arith)
finish (suc missing) s v e =
    let (m, t, step, few) = progress s v (omega (arith, e)) in
    let (n, u, rest, bound) = finish missing t step.valid (omega (arith, e, step.more)) in
    let (k, sum, moves) = Moves-append step.moves rest.moves in
    (
      k,
      u,
      record { moves = moves; valid = rest.valid; three = rest.three },
      omega (arith, few, bound, sum),
    )

won_completion :
    (s : GreatTreeState)
    → IsValid s
    → length s.water_holds ≡ 3
    → (limbs : List LimbId) × (completion s ≡ some limbs)
won_completion s v three = elim (completion_three s v) [
  | inl (open_game, few) ↦ absurd (omega (arith, few, three))
  | inr (limbs, over, won) ↦ (limbs, over)
]

-- From every state that a game reaches the players can finish it: at most six requests, each one
-- accepted, lead to a completion.
pub can_be_finished :
    (rand : Rand) (seat : CrownSeat) (seed : ℕ) (s : GreatTreeState)
    → Reach rand seat seed s
    → (n : ℕ) × (t : GreatTreeState) × (limbs : List LimbId) × Moves s n t
      × (n ≤ 6)
      × (completion t ≡ some limbs)
can_be_finished rand seat seed s r =
    let v = Reach-IsValid rand seat seed r in
    let (n, t, done, few) = finish (3 - length s.water_holds) s v (omega (arith, v.water_capped)) in
    let (limbs, over) = won_completion t done.valid done.three in
    (n, t, limbs, done.moves, omega (arith, few), over)
