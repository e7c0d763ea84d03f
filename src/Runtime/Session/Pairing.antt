-- ===== src/Runtime/Session/Pairing.antt =====
-- app.rs: admission and pairing. A session never has two players in one role, nor humans of two
-- purposes, and the two humans of a session found open get the two roles.
use parlando.Common.{
  ℕ, suc, ◌≡◌, ◌≤◌, ◌<◌, ◌+◌, refl, Bool, true, false, List, [], ◌∷◌, ◌++◌, Option, none, some,
  String, Map, values, lookup, insert, HasUniqueKeys, NoRepeat, NoRepeat-push, lookup-insert,
  insert-HasUniqueKeys, contains, map, length, all, arith, Bool-cases, Option-cases, inl, inr, ◌⊎◌,
  ◌↔◌, ==_iff, ◌==◌, eq_String, find, ap, subst, sym,
}
use parlando.Runtime.Role.{PlayerRole, a, b, eq_PlayerRole}
use parlando.Runtime.Session.Model.{
  Game, ParticipantSession, SessionParticipant, LiveSession, Memory, ExperimentConfig, is_human,
  is_forming, speechmatics_readiness_required,
}
use parlando.Runtime.Session.Admission.{
  Result, ok, SessionAdmission, waiting, active, roles, next_role, waiting_sessions,
  active_sessions, reserved_streams, ensure_session_capacity, is_open_for,
  open_human_session_for_pairing, seated, seat,
}

-- No two participants in one role.
abbrev pub HasDistinctRoles : Map String SessionParticipant → Type 0
HasDistinctRoles participants = NoRepeat (roles participants)

next_role-free :
    (ps : Map String SessionParticipant) (r : PlayerRole)
    → next_role ps ≡ some r
    → contains (roles ps) r ≡ false
unfolding next_role
next_role-free ps a h = ground arith
next_role-free ps b h = ground arith

-- A participant under a new key comes last.
insert-roles :
    (id : String) (p : SessionParticipant) (ps : Map String SessionParticipant)
    → lookup id ps ≡ none
    → roles (insert id p ps) ≡ roles ps ++ p.role ∷ []
unfolding lookup insert
insert-roles id p [] h = refl
insert-roles id p ((j, q) ∷ ps) h = elim (Bool-cases (j == id)) [
  | inl y ↦ ground (arith, y)
  | inr n ↦ rw n (ap (λ rs. q.role ∷ rs) (insert-roles id p ps (ground (arith, n))))
]

length-NoRepeat_roles : (rs : List PlayerRole) → NoRepeat rs → length rs ≤ 2
length-NoRepeat_roles [] h = ground arith
length-NoRepeat_roles (r ∷ []) h = ground arith
length-NoRepeat_roles (r ∷ s ∷ []) h = ground arith
length-NoRepeat_roles (a ∷ a ∷ t ∷ rs) h = let e : true ≡ false = h.0 in cc
length-NoRepeat_roles (b ∷ b ∷ t ∷ rs) h = let e : true ≡ false = h.0 in cc
length-NoRepeat_roles (a ∷ b ∷ a ∷ rs) h = let e : true ≡ false = h.0 in cc
length-NoRepeat_roles (a ∷ b ∷ b ∷ rs) h = let e : true ≡ false = h.1.0 in cc
length-NoRepeat_roles (b ∷ a ∷ a ∷ rs) h = let e : true ≡ false = h.1.0 in cc
length-NoRepeat_roles (b ∷ a ∷ b ∷ rs) h = let e : true ≡ false = h.0 in cc

length-values {ℓ κ} : {K : Type ℓ} {V : Type κ} (m : Map K V) → length (values m) ≡ length m
length-values [] = refl
length-values ((k, v) ∷ m) = ap suc (length-values m)

length-map {ℓ κ} :
    {A : Type ℓ} {B : Type κ} (f : A → B) (xs : List A) → length (map f xs) ≡ length xs
length-map f [] = refl
length-map f (x ∷ xs) = ap suc (length-map f xs)

length_distinct : (ps : Map String SessionParticipant) → HasDistinctRoles ps → length ps ≤ 2
length_distinct ps h =
    let bound = length-NoRepeat_roles (roles ps) h in
    ground (arith, length-map (λ (p : SessionParticipant). p.role) (values ps), length-values ps)

abbrev role_of : Option SessionParticipant → Option PlayerRole
role_of none = none
role_of (some p) = some p.role

-- What is true of a session after a participant has been seated in it.
pub record IsSeated {G : Game} (before after : LiveSession G) (participant : ParticipantSession)
    (id : String) (role : PlayerRole) : Type 0 where
  pub distinct : HasDistinctRoles after.participants
  pub keys : HasUniqueKeys after.participants
  pub two : length after.participants ≤ 2
  pub seat : role_of (lookup id after.participants) ≡ some role
  pub others :
      (j : String)
      → (lookup j after.participants ≡ lookup j before.participants)
        ⊎ ((j ≡ id) × (lookup id before.participants ≡ none))
  pub purpose : after.purpose ≡ participant.purpose

abbrev Seated : Game → Type 0
Seated G = Result (LiveSession G × PlayerRole)

seated_pair : {A B : Type 0} {p q : A × B} → ok p ≡ ok q → (p.0 ≡ q.0) × (p.1 ≡ q.1)
seated_pair {p = p} {q = q} h = let e : p ≡ q = cc in (ap (λ x. x.0) e, ap (λ x. x.1) e)

module _ {G : Game} where
  seat_again :
      (session next : LiveSession G) (participant : ParticipantSession) (id : String)
      (existing : SessionParticipant) (role : PlayerRole)
      → HasDistinctRoles session.participants
      → HasUniqueKeys session.participants
      → lookup id session.participants ≡ some existing
      → session.purpose ≡ participant.purpose
      → (session ≡ next) × (existing.role ≡ role)
      → IsSeated session next participant id role
  seat_again session next participant id existing role d u there same (e, f) =
      subst (λ n. IsSeated session n participant id role) e
        (record {
          distinct = d;
          keys = u;
          two = length_distinct session.participants d;
          seat = rw there (ap some f);
          others = λ j. inl refl;
          purpose = same;
        })

  seat_new :
      (session : LiveSession G) (participant : ParticipantSession) (id : String)
      (p : SessionParticipant) (next : LiveSession G) (role : PlayerRole)
      → HasDistinctRoles session.participants
      → HasUniqueKeys session.participants
      → lookup id session.participants ≡ none
      → next_role session.participants ≡ some p.role
      → session.purpose ≡ participant.purpose
      → (record session { participants = insert id p session.participants } ≡ next)
        × (p.role ≡ role)
      → IsSeated session next participant id role
  seat_new session participant id p next role d u new seats same (e, f) =
      let d' : HasDistinctRoles (insert id p session.participants) =
        subst NoRepeat (sym (insert-roles id p session.participants new)) (
          NoRepeat-push (roles session.participants) p.role
            (next_role-free session.participants p.role seats) d) in
      subst (λ n. IsSeated session n participant id role) e
        (record {
          distinct = d';
          keys = insert-HasUniqueKeys id p session.participants u;
          two = length_distinct (insert id p session.participants) d';
          seat = rw (lookup-insert id id p session.participants, (==_iff id id).1 refl) (ap some f);
          others = λ j. elim (Bool-cases (id == j)) [
            | inl y ↦ inr (sym ((==_iff id j).0 y), new)
            | inr n ↦ inl (rw (lookup-insert id j p session.participants, n) refl)
          ];
          purpose = same;
        })

  -- A participant who is seated has a role of their own, beside at most one other, in a session of
  -- their purpose; nobody else's seat changes, nor does the seat of one who was there already.
  pub seat-IsSeated :
      (config : ExperimentConfig) (session next : LiveSession G) (participant : ParticipantSession)
      (id now : String) (role : PlayerRole)
      → HasDistinctRoles session.participants
      → HasUniqueKeys session.participants
      → seat config session participant id now ≡ ok (next, role)
      → IsSeated session next participant id role
  unfolding seat
  seat-IsSeated config session next participant id now role d u h =
      elim (Bool-cases (session.purpose == participant.purpose)) [
        | inr differ ↦ ground (arith, differ)
        | inl same ↦ elim (Option-cases (lookup id session.participants)) [
          | inr (existing, there) ↦
              let stays : Seated G = ok (session, existing.role) in
              let goes : Seated G = ok (next, role) in
              let h' : stays ≡ goes = ground (arith, same, there) in
              seat_again session next participant id existing role d u there
                ((==_iff session.purpose participant.purpose).0 same) (seated_pair h')
          | inl new ↦ elim (Option-cases (next_role session.participants)) [
            | inl full ↦ ground (arith, same, new, full)
            | inr (free, seats) ↦
                let p = seated config participant id free now in
                let after = record session { participants = insert id p session.participants } in
                let stays : Seated G = ok (after, free) in
                let goes : Seated G = ok (next, role) in
                let h' : stays ≡ goes = ground (arith, same, new, seats) in
                seat_new session participant id p next role d u new seats
                  ((==_iff session.purpose participant.purpose).0 same) (seated_pair h')
          ]
        ]
      ]

find-lookup :
    {V : Type 0} (p : V → Bool) (m : Map String V) (k : String) (v : V)
    → HasUniqueKeys m
    → find (λ entry. p entry.1) m ≡ some (k, v)
    → (lookup k m ≡ some v) × (p v ≡ true)
unfolding lookup
find-lookup p [] k v u h = cc
find-lookup p ((j, w) ∷ m) k v u h = elim (Bool-cases (p w)) [
  | inl y ↦
      let je : j ≡ k = ground (arith, y) in
      let we : w ≡ v = ground (arith, y) in
      (rw ((==_iff j k).1 je) (ap some we), subst (λ x. p x ≡ true) we y)
  | inr n ↦
      let (e, t) = find-lookup p m k v u.1 (ground (arith, n)) in
      (ground (arith, e, u, ==_iff j k), t)
]

-- What an open session offers: its second role, for a human of its mode and purpose.
abbrev pub IsOpen : {G : Game} → String → String → LiveSession G → Type 0
IsOpen mode purpose session =
    (is_forming session.lifecycle ≡ true)
    × (session.mode ≡ mode)
    × (session.purpose ≡ purpose)
    × (next_role session.participants ≡ some b)
    × (all is_human (values session.participants) ≡ true)

is_open_for-IsOpen :
    {G : Game} (mode purpose : String) (session : LiveSession G)
    → is_open_for mode purpose session ≡ true
    → IsOpen mode purpose session
is_open_for-IsOpen mode purpose session h = (
  ground arith,
  (==_iff session.mode mode).0 (ground arith),
  (==_iff session.purpose purpose).0 (ground arith),
  ground arith,
  ground arith,
)

-- A session that is found for pairing is in the memory, still forming, of the mode and the purpose
-- asked for, holds humans only, and wants its second player.
pub open_human_session_for_pairing-IsOpen :
    {G : Game} (memory : Memory G) (mode purpose id : String)
    → HasUniqueKeys memory.sessions
    → open_human_session_for_pairing memory mode purpose ≡ some id
    → (session : LiveSession G) × (lookup id memory.sessions ≡ some session)
      × IsOpen mode purpose session
unfolding open_human_session_for_pairing
open_human_session_for_pairing-IsOpen memory mode purpose id u h =
    elim (Option-cases (find (λ entry. is_open_for mode purpose entry.1) memory.sessions)) [
      | inl n ↦ ground (arith, n)
      | inr (entry, e) ↦
          let same : entry.0 ≡ id = ground (arith, e) in
          let (found, y) =
            find-lookup (is_open_for mode purpose) memory.sessions entry.0 entry.1 u e in
          (
            entry.1,
            subst (λ i. lookup i memory.sessions ≡ some entry.1) same found,
            is_open_for-IsOpen mode purpose entry.1 y,
          )
    ]

-- What the capacity test grants.
abbrev pub HasRoom : {G : Game} → ExperimentConfig → Memory G → SessionAdmission → Type 0
HasRoom config memory waiting = waiting_sessions memory < config.capacity.max_waiting_sessions
HasRoom config memory active = active_sessions memory < config.capacity.max_active_sessions

-- The capacity test grants a session exactly when there is room for one of its kind, and, where
-- Speechmatics must be ready, for the streams it adds.
pub ensure_session_capacity-HasRoom :
    {G : Game} (config : ExperimentConfig) (memory : Memory G) (admission : SessionAdmission)
    (n : ℕ)
    → (ensure_session_capacity config memory admission n ≡ ok tt) ↔ (
        HasRoom config memory admission
        × ((speechmatics_readiness_required config ≡ false)
            ⊎ (reserved_streams memory + n ≤ config.capacity.max_transcription_streams)))
unfolding ensure_session_capacity
ensure_session_capacity-HasRoom config memory waiting n = ground arith
ensure_session_capacity-HasRoom config memory active n = ground arith
