-- ===== src/Agent.antt =====
-- _step_check_deadline of agent.py. A step lets the request go on, or refuses it with a fault code. The other
-- steps of the task pipeline, the cache, the peers, acknowledgments and the causal chain are child modules.
pub mod Deadline
pub mod State
pub mod Cache
pub mod Peers
pub mod Answers
pub mod Capability
pub mod Task
pub mod Run
pub mod Refusals
pub mod Senders
pub mod Granted
pub mod Counted
pub mod Passed
pub mod Allowed
pub mod Authorized
pub mod Tracks
pub mod Kept
pub mod KeptCapability
pub mod Limit
pub mod Invocations
pub mod Replay
pub mod Restarted
pub mod Ack
pub mod Causal
pub mod Stream
pub mod Visas
pub mod Grants
pub mod Dispatch
use pact_passport.Base.{
  ℕ, ltb, ◌+◌, ◌*◌, Bool, true, false, String, Option, none, some, if◌then◌else◌,
}
use pact_passport.Errors.{Result, ok, ◌>>=◌}
use pact_passport.Platform.{Platform, Datetime, aware, naive}
use pact_passport.Wire.{truthy}
use pact_passport.Message.{PactMessage}
use pact_passport.Message.Check.{is_deadline_exceeded}

pub data StepFault : Type 0 where
  deadline_exceeded deadline_too_far : StepFault

module _ (p : Platform) where
  -- `horizon_s > self.max_deadline_seconds`, where the deadline is known not to be past; a deadline that
  -- cannot be read is passed over here.
  abbrev pub check_horizon : ℕ → ℕ → Option Datetime → Option StepFault
  check_horizon max_seconds now (some (aware t)) =
      if ltb (now + max_seconds * 1000000) t then some deadline_too_far else none
  check_horizon max_seconds now o = none

  abbrev pub check_far : ℕ → ℕ → Option String → Option StepFault
  check_far max_seconds now none = none
  check_far max_seconds now (some text) = check_horizon max_seconds now (p.fromisoformat text)

  unfoldable pub step_check_deadline : ℕ → ℕ → PactMessage → Result (Option StepFault)
  unfolding is_deadline_exceeded
  step_check_deadline max_seconds now m = do
    late ← is_deadline_exceeded p now m
    if late then ok (some deadline_exceeded) else ok (check_far max_seconds now (truthy m.deadline))
