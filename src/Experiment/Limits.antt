-- ===== src/Experiment/Limits.antt =====
-- agent_experiment.rs: `SessionLimits`, the bounds of one session, and their validation.
use parlando.Common.{ℕ, ◌≤◌, ◌<◌, ◌≡◌, ◌↔◌, ◌||◌, ltb, ◌==◌, eq_ℕ, if◌then◌else◌, arith}

pub record SessionLimits : Type 0 where
  pub callback_timeout_seconds : ℕ
  pub shutdown_timeout_seconds : ℕ
  pub session_timeout_seconds : ℕ
  pub decisions : ℕ
  pub accepted_actions : ℕ
  pub messages : ℕ
  pub rejected_actions : ℕ

unfoldable pub default_limits : SessionLimits
default_limits = record {
  callback_timeout_seconds = 60;
  shutdown_timeout_seconds = 10;
  session_timeout_seconds = 900;
  decisions = 200;
  accepted_actions = 100;
  messages = 200;
  rejected_actions = 10;
}

pub data Validation : Type 0 where
  valid zero_limit callback_exceeds_session : Validation

unfoldable pub validate : SessionLimits → Validation
validate limits =
    if limits.callback_timeout_seconds == 0
      || limits.shutdown_timeout_seconds == 0
      || limits.session_timeout_seconds == 0
      || limits.decisions == 0
      || limits.accepted_actions == 0
      || limits.messages == 0
      || limits.rejected_actions == 0
    then zero_limit
    else if ltb limits.session_timeout_seconds limits.callback_timeout_seconds
    then callback_exceeds_session
    else valid

-- Every bound of the session is positive, and a callback fits into it.
pub record IsUsable (limits : SessionLimits) : Type 0 where
  pub callback : 0 < limits.callback_timeout_seconds
  pub shutdown : 0 < limits.shutdown_timeout_seconds
  pub decides : 0 < limits.decisions
  pub accepts : 0 < limits.accepted_actions
  pub sends : 0 < limits.messages
  pub rejects : 0 < limits.rejected_actions
  pub fits : limits.callback_timeout_seconds ≤ limits.session_timeout_seconds

-- Limits are valid exactly when every one is positive and the callback timeout is no longer than
-- the session's.
pub validate-IsUsable : (limits : SessionLimits) → (validate limits ≡ valid) ↔ IsUsable limits
unfolding validate
validate-IsUsable limits = ground arith
