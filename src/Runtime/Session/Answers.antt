-- ===== src/Runtime/Session/Answers.antt =====
-- app.rs: the results that a session end collects. Each human gets one, under their role.
use parlando.Common.{
  ◌≡◌, refl, Bool, true, false, List, [], ◌∷◌, Option, some, String, Map, lookup, insert, NoRepeat,
  All, lookup-insert, contains, map, retain, arith, Bool-cases, Option-cases, inl, inr, ◌⊎◌, ==_iff,
  ◌==◌, eq_String, subst, ◌∙◌,
}
use parlando.Runtime.Role.{PlayerRole, a, b, as_str, role_eq, eq_PlayerRole}
use parlando.Runtime.Session.Model.{
  ParticipantOutcomeKind, ParticipantResult, SessionParticipant, CompletionPaths, is_human,
}
use parlando.Runtime.Session.Ending.{result_for, participant_results}
use parlando.Runtime.Session.Outcomes.{IsResult, handoff_for-HandsOff}

as_str-eq : (r s : PlayerRole) → (as_str r == as_str s) ≡ role_eq r s
unfolding as_str
as_str-eq a a = refl
as_str-eq a b = refl
as_str-eq b a = refl
as_str-eq b b = refl

role_comm : (r s : PlayerRole) → role_eq r s ≡ role_eq s r
role_comm r s = ground arith

abbrev pub roles_of : List SessionParticipant → List PlayerRole
roles_of ps = map (λ (p : SessionParticipant). p.role) ps

module _ {Value : Type 0} where
  -- The participant has a result, of their own outcome and their own view of the state.
  abbrev pub HasResult :
      (SessionParticipant → Value → ParticipantResult Value)
      → (PlayerRole → Option Value)
      → Map String (ParticipantResult Value)
      → SessionParticipant
      → Type 0
  HasResult make observe results p =
      (o : Value) × (observe p.role ≡ some o) × (lookup (as_str p.role) results ≡ some (make p o))

  HasResult-insert :
      (make : SessionParticipant → Value → ParticipantResult Value)
      (observe : PlayerRole → Option Value) (results : Map String (ParticipantResult Value))
      (r : PlayerRole) (v : ParticipantResult Value) (ps : List SessionParticipant)
      → contains (roles_of ps) r ≡ false
      → All (HasResult make observe results) ps
      → All (HasResult make observe (insert (as_str r) v results)) ps
  HasResult-insert make observe results r v [] c h = tt
  HasResult-insert make observe results r v (p ∷ ps) c ((o, e, f), h) =
      let other : role_eq r p.role ≡ false = role_comm r p.role ∙ ground arith in
      (
        (
          o,
          e,
          rw (lookup-insert (as_str r) (as_str p.role) v results, as_str-eq r p.role, other) f,
        ),
        HasResult-insert make observe results r v ps (ground arith) h,
      )

  pub participant_results-HasResult :
      (paths : CompletionPaths) (started : Bool)
      (outcome_of : SessionParticipant → ParticipantOutcomeKind) (reason : String)
      (completion : Option Value) (observe : PlayerRole → Option Value)
      (ps : List SessionParticipant) (results : Map String (ParticipantResult Value))
      → NoRepeat (roles_of ps)
      → participant_results paths started outcome_of reason completion observe ps ≡ some results
      → All
          (HasResult
            (λ p o. result_for paths started outcome_of reason completion o p)
            observe
            results)
          ps
  unfolding participant_results
  participant_results-HasResult paths started outcome_of reason completion observe [] results d h =
      tt
  participant_results-HasResult paths started outcome_of reason completion observe (p ∷ ps) results
        d h =
      elim (Option-cases (observe p.role)) [
        | inl n ↦ ground (arith, n)
        | inr (o, e) ↦
            elim (Option-cases
              (participant_results paths started outcome_of reason completion observe ps)) [
                | inl n ↦ ground (arith, e, n)
                | inr (rest, f) ↦
                    let v = result_for paths started outcome_of reason completion o p in
                    let same : insert (as_str p.role) v rest ≡ results = ground (arith, e, f) in
                    let make : SessionParticipant → Value → ParticipantResult Value =
                      λ q u. result_for paths started outcome_of reason completion u q in
                    subst (λ m. All (HasResult make observe m) (p ∷ ps)) same
                      (
                        (
                          o,
                          e,
                          rw
                              (
                                lookup-insert (as_str p.role) (as_str p.role) v rest,
                                (==_iff (as_str p.role) (as_str p.role)).1 refl,
                              )
                              refl,
                        ),
                        HasResult-insert make observe rest p.role v ps d.0 (
                            participant_results-HasResult paths started outcome_of reason completion
                              observe ps rest d.1 f),
                      )
              ]
      ]

-- Filtering keeps the roles distinct.
contains-roles_retain :
    (q : SessionParticipant → Bool) (ps : List SessionParticipant) (r : PlayerRole)
    → contains (roles_of ps) r ≡ false
    → contains (roles_of (retain q ps)) r ≡ false
contains-roles_retain q [] r h = refl
contains-roles_retain q (p ∷ ps) r h = ground (arith, contains-roles_retain q ps r)

pub NoRepeat-roles_retain :
    (q : SessionParticipant → Bool) (ps : List SessionParticipant)
    → NoRepeat (roles_of ps)
    → NoRepeat (roles_of (retain q ps))
NoRepeat-roles_retain q [] h = tt
NoRepeat-roles_retain q (p ∷ ps) h = elim (Bool-cases (q p)) [
  | inl y ↦ rw y (contains-roles_retain q ps p.role h.0, NoRepeat-roles_retain q ps h.1)
  | inr n ↦ rw n (NoRepeat-roles_retain q ps h.1)
]

module _ {Value : Type 0} where
  -- The participant is an agent, or has a result under their role: of an outcome that the relation
  -- allows, with this reason and completion, their own view of the state, and their handoff.
  abbrev pub Answered :
      CompletionPaths
      → Type 0
      → (SessionParticipant → ParticipantOutcomeKind → Type 0)
      → String
      → Option Value
      → (PlayerRole → Option Value)
      → Map String (ParticipantResult Value)
      → SessionParticipant
      → Type 0
  Answered paths Started Outcome reason completion observe results p =
      (p.source ≡ "agent")
      ⊎ ((seen : Value) × (result : ParticipantResult Value) × (observe p.role ≡ some seen)
          × (lookup (as_str p.role) results ≡ some result)
          × IsResult paths Started (Outcome p) reason completion seen p result)

  pub answers :
      (paths : CompletionPaths) (Started : Type 0) (started : Bool)
      (Outcome : SessionParticipant → ParticipantOutcomeKind → Type 0)
      (outcome_of : SessionParticipant → ParticipantOutcomeKind) (reason : String)
      (completion : Option Value) (observe : PlayerRole → Option Value)
      (results : Map String (ParticipantResult Value)) (ps : List SessionParticipant)
      → (started ≡ true → Started)
      → (started ≡ false → Started → ⊥)
      → ((p : SessionParticipant) → Outcome p (outcome_of p))
      → All
          (HasResult
            (λ p o. result_for paths started outcome_of reason completion o p)
            observe
            results)
          (retain is_human ps)
      → All (Answered paths Started Outcome reason completion observe results) ps
  answers paths Started started Outcome outcome_of reason completion observe results [] runs rests
        is h =
      tt
  answers paths Started started Outcome outcome_of reason completion observe results (p ∷ ps) runs
        rests is h =
      let make : SessionParticipant → Value → ParticipantResult Value =
        λ q o. result_for paths started outcome_of reason completion o q in
      elim (Bool-cases (p.source == "agent")) [
        | inl agent ↦
            let others : All (HasResult make observe results) (retain is_human ps) =
              rw agent at h in
            (
              inl ((==_iff p.source "agent").0 agent),
              answers paths Started started Outcome outcome_of reason completion observe results ps
                  runs rests is others,
            )
        | inr human ↦
            let all : All (HasResult make observe results) (p ∷ retain is_human ps) =
              rw human at h in
            let ((seen, view, told), others) = all in
            (
              inr (
                seen,
                make p seen,
                view,
                told,
                record {
                  outcome = is p;
                  reason = refl;
                  completion = refl;
                  observed = refl;
                  handoff = handoff_for-HandsOff paths Started p (outcome_of p) started runs rests;
                },
              ),
              answers paths Started started Outcome outcome_of reason completion observe results ps
                  runs rests is others,
            )
      ]
