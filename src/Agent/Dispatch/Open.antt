-- ===== src/Agent/Dispatch/Open.antt =====
-- The messages that agent.py answers for anyone: identity, discover, and an intent that it does not know.
use pact_passport.Base.{
  ◌≡◌, refl, ℕ, true, false, Bool-cases, inl, inr, String, Option, none, some, ◌==◌, ◌||◌,
  string_eq, if◌then◌else◌,
}
use pact_passport.Json.{Dict}
use pact_passport.Errors.{ok}
use pact_passport.Platform.{Platform, IsLawful}
use pact_passport.Message.{PactMessage}
use pact_passport.Message.Dicts.{message_from_dict}
use pact_passport.Message.Check.{verify_message}
use pact_passport.Message.Build.{build_res, sign_message}
use pact_passport.Message.Build.Signed.{verify_message-sign_message}
use pact_passport.Visa.{Tracker}
use pact_passport.Agent.State.{Agent, AgentState, Env}
use pact_passport.Agent.Visas.{Gatekeeper}
use pact_passport.Agent.Dispatch.{answered, dispatch_intent, dispatch, Dispatched}

module _ (p : Platform) (law : IsLawful p) (a : Agent) (e : Env) (g : Gatekeeper)
    (identity_document : Dict) (peer : String) (clock : ℕ) where
  -- A signed response with this status, and nothing else.
  abbrev pub Answers : Dispatched → String → Tracker → AgentState → Type 0
  Answers d status tr s =
      (res : PactMessage) × (d ≡ answered p a e g identity_document peer clock res tr s)
      × (verify_message p res (p.public_key a.key) ≡ true)
      × (res.status ≡ some status)

  response-Answers :
      (m : PactMessage) (payload fault : Option Dict) (status : String) (tr : Tracker)
      (s : AgentState)
      → Answers
          (answered p a e g identity_document peer clock
            (build_res p (e.fresh 0) a.key a.agent_id m payload status fault)
            tr
            s)
          status
          tr
          s
  unfolding build_res sign_message
  response-Answers m payload fault status tracker s = (
    build_res p (e.fresh 0) a.key a.agent_id m payload status fault,
    refl,
    verify_message-sign_message p law a.key _,
    refl,
  )

  abbrev pub open_status : String → String
  open_status intent = if intent == "identity" || intent == "discover" then "ok" else "error"

  dispatch_intent-Answers :
      (m : PactMessage) (tr : Tracker) (s : AgentState)
      → (m.intent == "request_visa") ≡ false
      → (m.intent == "task") ≡ false
      → Answers
          (dispatch_intent p a e g identity_document peer clock m tr s)
          (open_status m.intent)
          tr
          s
  unfolding dispatch_intent
  dispatch_intent-Answers m tr s no_visa no_task = elim (Bool-cases (m.intent == "identity")) [
    | inl identity ↦ simp identity (response-Answers m _ none "ok" tr s)
    | inr other ↦ elim (Bool-cases (m.intent == "discover")) [
      | inl discover ↦ simp (other, discover) (response-Answers m _ none "ok" tr s)
      | inr unknown ↦
          simp (other, unknown, no_visa, no_task) (response-Answers m none _ "error" tr s)
    ]
  ]

  -- A message that can be read and is no acknowledgment, task or visa request, signed or not, is answered
  -- with a response that the agent has signed, "ok" for the intents identity and discover and "error" for
  -- any other, and changes nothing.
  pub dispatch-Answers :
      (body : Dict) (m : PactMessage) (tr : Tracker) (s : AgentState)
      → message_from_dict body ≡ ok m
      → (m.type == "INITIATOR_ACK") ≡ false
      → (m.intent == "request_visa") ≡ false
      → (m.intent == "task") ≡ false
      → Answers
          (dispatch p a e g identity_document peer clock body tr s)
          (open_status m.intent)
          tr
          s
  unfolding dispatch
  dispatch-Answers body m tr s read no_ack no_visa no_task =
      simp (read, no_ack) (dispatch_intent-Answers m tr s no_visa no_task)
