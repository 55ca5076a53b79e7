-- ===== src/Agent/Deadline.antt =====
-- Which deadlines the agent lets through, and which make the step raise.
use pact_passport.Base.{
  Option-cases, ◌≢◌, ℕ, ◌+◌, ◌*◌, ◌≤◌, ◌≡◌, ◌↔◌, ◌⊎◌, inl, inr, refl, subst, String, Option, none,
  some, arith, if◌then◌else◌,
}
use pact_passport.Errors.{Error, Result, ok, raise, value_error, type_error, ◌>>=◌}
use pact_passport.Platform.{Platform, Datetime, aware, naive}
use pact_passport.Wire.{truthy}
use pact_passport.Message.{PactMessage}
use pact_passport.Message.Check.{is_past}
use pact_passport.Agent.{StepFault, deadline_exceeded, check_horizon, step_check_deadline}

module _ (p : Platform) (max_seconds now : ℕ) where
  -- The deadline can be read as an aware moment, is not past, and not further off than allowed.
  abbrev Near : Option Datetime → Type 0
  Near o = (t : ℕ) × (o ≡ some (aware t)) × (now ≤ t) × (t ≤ now + max_seconds * 1000000)

  abbrev pub InTime : Option String → Type 0
  InTime o = (o ≡ none) ⊎ ((text : String) × (o ≡ some text) × Near (p.fromisoformat text))

  -- It cannot be read, or is a naive moment.
  abbrev Vague : Option Datetime → Type 0
  Vague o = (o ≡ none) ⊎ ((t : ℕ) × (o ≡ some (naive t)))

  abbrev pub Unreadable : Option String → Type 0
  Unreadable o = (text : String) × (o ≡ some text) × Vague (p.fromisoformat text)

  abbrev outcome : Option Datetime → Result (Option StepFault)
  outcome o = is_past p now o >>= λ late.
      if late then ok (some deadline_exceeded) else ok (check_horizon p max_seconds now o)

  on_time :
      (t : ℕ)
      → (outcome (some (aware t)) ≡ ok none) ↔ ((now ≤ t) × (t ≤ now + max_seconds * 1000000))
  on_time t = (λ h. ground (arith, h), λ h. ground (arith, h.0, h.1))

  Near-iff : (o : Option Datetime) → (outcome o ≡ ok none) ↔ Near o
  Near-iff none = (λ h. ground (arith, h), λ h. cc h.1)
  Near-iff (some (naive t)) = (λ h. ground (arith, h), λ h. ground (arith, h.1))
  Near-iff (some (aware t)) = (
    λ h. let (early, near) = (on_time t).0 h in (t, refl, early, near),
    λ h.
        let same : h.0 ≡ t = ground (arith, h.1) in
        (on_time t).1 (subst (λ u. (now ≤ u) × (u ≤ now + max_seconds * 1000000)) same (h.2, h.3)),
  )

  aware_returns : (t : ℕ) (e : Error) → outcome (some (aware t)) ≢ raise e
  aware_returns t e h = ground (arith, h)

  Vague-iff : (o : Option Datetime) → ((e : Error) × (outcome o ≡ raise e)) ↔ Vague o
  Vague-iff none = (λ h. inl refl, λ h. (value_error, refl))
  Vague-iff (some (naive t)) = (λ h. inr (t, refl), λ h. (type_error, refl))
  Vague-iff (some (aware t)) = (λ h. absurd (aware_returns t h.0 h.1), λ h. ground (arith, h))

  -- The step lets a request go on exactly if it has no deadline, or one that can be read as an aware
  -- moment that is not past and not further off than the agent allows.
  pub step_check_deadline-InTime :
      (m : PactMessage)
      → (step_check_deadline p max_seconds now m ≡ ok none) ↔ InTime (truthy m.deadline)
  unfolding step_check_deadline
  step_check_deadline-InTime m = elim (Option-cases (truthy m.deadline)) [
    | inl e ↦ rw e (λ h. inl refl, λ h. refl)
    | inr (text, e) ↦ rw e (
      λ h. inr (text, refl, (Near-iff (p.fromisoformat text)).0 h),
      λ h. elim h [
        | inl n ↦ ground (arith, n)
        | inr (other, same, near) ↦
            (Near-iff (p.fromisoformat text)).1
              (subst (λ s. Near (p.fromisoformat s)) (ground (arith, same)) near)
      ],
    )
  ]

  -- The step raises exactly if the deadline is a text that cannot be read, or a naive moment.
  pub step_check_deadline-Unreadable :
      (m : PactMessage)
      → ((e : Error) × (step_check_deadline p max_seconds now m ≡ raise e))
        ↔ Unreadable (truthy m.deadline)
  unfolding step_check_deadline
  step_check_deadline-Unreadable m = elim (Option-cases (truthy m.deadline)) [
    | inl e ↦ rw e (λ h. ground (arith, h.1), λ h. ground (arith, h.1))
    | inr (text, e) ↦ rw e (
      λ h. (text, refl, (Vague-iff (p.fromisoformat text)).0 h),
      λ h.
          (Vague-iff (p.fromisoformat text)).1
            (subst (λ s. Vague (p.fromisoformat s)) (ground (arith, h.1)) h.2),
    )
  ]
