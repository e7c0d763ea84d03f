-- ===== src/Runtime/Lifecycle.antt =====
-- rust-server/src/app/lifecycle.rs: whether an experiment takes participants in, and for what.
use parlando.Common.{
  ◌≡◌, refl, Bool, true, false, ◌||◌, Option, none, some, String, arith, ◌==◌, ==_iff, eq_String,
  if◌then◌else◌, ◌↔◌, ◌⊎◌,
}

pub data ExperimentLifecycle : Type 0 where
  inactive testing active completed archived : ExperimentLifecycle

-- `none` stands for the `bad_request` error.
unfoldable pub parse : String → Option ExperimentLifecycle
parse value =
    if value == "inactive"
    then some inactive
    else if value == "testing"
    then some testing
    else if value == "active"
    then some active
    else if value == "completed"
    then some completed
    else if value == "archived"
    then some archived
    else none

unfoldable pub as_str : ExperimentLifecycle → String
as_str inactive = "inactive"
as_str testing = "testing"
as_str active = "active"
as_str completed = "completed"
as_str archived = "archived"

unfoldable pub allows_intake : ExperimentLifecycle → Bool
allows_intake testing = true
allows_intake active = true
allows_intake _ = false

unfoldable pub data_purpose : ExperimentLifecycle → String
data_purpose testing = "testing"
data_purpose _ = "research"

abbrev lifecycle_eq : ExperimentLifecycle → ExperimentLifecycle → Bool
lifecycle_eq inactive inactive = true
lifecycle_eq testing testing = true
lifecycle_eq active active = true
lifecycle_eq completed completed = true
lifecycle_eq archived archived = true
lifecycle_eq _ _ = false

abbrev listed : ExperimentLifecycle → ExperimentLifecycle → Bool
listed inactive testing = true
listed inactive active = true
listed inactive archived = true
listed testing inactive = true
listed active inactive = true
listed active completed = true
listed completed archived = true
listed archived inactive = true
listed _ _ = false

unfoldable pub can_transition_to : ExperimentLifecycle → ExperimentLifecycle → Bool
can_transition_to current next = lifecycle_eq current next || listed current next

parse_back : (l : ExperimentLifecycle) → parse (as_str l) ≡ some l
unfolding parse as_str
parse_back inactive = refl
parse_back _ = refl

parse_only : (value : String) (l : ExperimentLifecycle) → parse value ≡ some l → value ≡ as_str l
unfolding parse as_str
parse_only value l h = ground (
  arith,
  ==_iff value "inactive",
  ==_iff value "testing",
  ==_iff value "active",
  ==_iff value "completed",
  ==_iff value "archived",
)

-- Every stored word is read back, and nothing else is read.
pub parse-as_str :
    (value : String) (l : ExperimentLifecycle) → (parse value ≡ some l) ↔ (value ≡ as_str l)
unfolding parse as_str
parse-as_str value l = (parse_only value l, λ e. rw e (parse_back l))

-- No single transition leads from one kind of intake to the other: the data-use purpose of an
-- experiment that takes participants in changes only by way of a closed state.
pub intake_keeps_purpose :
    (current next : ExperimentLifecycle)
    → can_transition_to current next ≡ true
    → allows_intake current ≡ true
    → allows_intake next ≡ true
    → data_purpose current ≡ data_purpose next
unfolding can_transition_to allows_intake data_purpose
intake_keeps_purpose current next c a b = ground arith

-- The lifecycles that a row of transitions, each allowed, leads to.
pub data Leads (from : ExperimentLifecycle) : ExperimentLifecycle → Type 0 where
  stay : Leads from from
  move :
      {l : ExperimentLifecycle} (m : ExperimentLifecycle)
      → Leads from l
      → can_transition_to l m ≡ true
      → Leads from m

-- No lifecycle is a dead end: an experiment can be brought back to active intake from each.
pub Leads-active : (l : ExperimentLifecycle) → Leads l active
unfolding can_transition_to
Leads-active inactive = move active stay refl
Leads-active testing = move active (move inactive stay refl) refl
Leads-active active = stay
Leads-active completed = move active (move inactive (move archived stay refl) refl) refl
Leads-active archived = move active (move inactive stay refl) refl

-- An experiment that has completed takes participants again only by way of the archive.
pub completed_needs_archive :
    (l : ExperimentLifecycle)
    → can_transition_to completed l ≡ true
    → (l ≡ completed) ⊎ (l ≡ archived)
unfolding can_transition_to
completed_needs_archive l h = ground arith
