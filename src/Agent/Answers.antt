-- ===== src/Agent/Answers.antt =====
-- How agent.py answers: the signed error response with its receipt, and the receipts' extra fields for a
-- visa. The request, the response and the receipt are saved.
use pact_passport.Base.{String, Option, none, some, [], ◌∷◌, if◌then◌else◌}
use pact_passport.Json.{Value, Dict, null, str, obj, end, field}
use pact_passport.Platform.{Platform}
use pact_passport.Capability.{CapabilityToken}
use pact_passport.Message.{PactMessage}
use pact_passport.Message.Dicts.{message_to_dict}
use pact_passport.Message.Build.{build_res}
use pact_passport.Receipt.{create_receipt}
use pact_passport.Store.{save_message, save_receipt}
use pact_passport.Agent.State.{Agent, Env, Context, one, Step, answer, save, ◌>>◌, pure}

abbrev pub text_or_null : Option String → Value
text_or_null none = null
text_or_null (some s) = str s

-- `rest` is what dispatch_err adds.
abbrev pub visa_extra : Option CapabilityToken → Dict → Option Dict
visa_extra none rest = none
visa_extra (some t) rest =
    if t.visa
    then some (
        field "event_type" (str "visa_use") (
          field "visa_cap_id" (str t.cap_id) (
            field "ephemeral_key_fingerprint" (text_or_null t.ephemeral_key_fingerprint)
              (field "action" (str t.action) (field "visa_nonce" (text_or_null t.nonce) rest)))))
    else none

module _ (p : Platform) (a : Agent) (e : Env) where
  unfoldable pub persist_receipt : Dict → Step (Unit {0})
  persist_receipt receipt = if a.ablations.receipt then pure tt else save (save_receipt receipt)

  abbrev pub fault_dict : String → Dict
  fault_dict code = field "code" (str code) (field "detail" (str (e.detail code)) end)

  -- The response and the receipt of a refusal.
  abbrev pub error_res : Context → String → PactMessage
  error_res ctx code =
      build_res p (e.fresh 0) a.key a.agent_id ctx.msg none "error" (some (fault_dict code))

  abbrev pub error_receipt : Context → String → Dict
  error_receipt ctx code =
      create_receipt p e.now a.key a.agent_id ctx.msg.id (ctx.msg.id ∷ e.fresh 0 ∷ []) "failed"
        (visa_extra ctx.cap_token (field "fault_code" (str code) end))

  unfoldable pub dispatch_err {ℓ} : {A : Type ℓ} → Context → String → Step A
  unfolding persist_receipt
  dispatch_err ctx code = do
    save (save_message (message_to_dict ctx.msg))
    save (save_message (message_to_dict (error_res ctx code)))
    persist_receipt (error_receipt ctx code)
    answer (one (obj (message_to_dict (error_res ctx code))))
