-- ===== src/Agent/Ack.antt =====
-- _handle_initiator_ack of agent.py: the acknowledgment that makes a stored receipt bilateral.
pub mod Passed
pub mod Accepted
use pact_passport.Base.{
  Bool, true, false, String, Option, none, some, List, [], ◌∷◌, ◌==◌, string_eq, if◌then◌else◌,
}
use pact_passport.Json.{Value, Dict, bool, str, obj, end, field, get, set, without}
use pact_passport.Json.Canonical.{canonical_json}
use pact_passport.Platform.{Platform, Bytes}
use pact_passport.Wire.{truthy}
use pact_passport.Message.{PactMessage}
use pact_passport.Message.Dicts.{message_to_dict}
use pact_passport.Message.Build.{build_res, equals_text}
use pact_passport.Message.Check.{verify_message, verify_text}
use pact_passport.Store.{Store, list_receipts, save_receipt}
use pact_passport.Agent.State.{
  Agent, AgentState, Env, Context, context_start, Step, one, answer, pure, save, ◌>>=◌, ◌>>◌,
}
use pact_passport.Agent.Peers.{sender_key, resolve_sender_key}
use pact_passport.Agent.Answers.{dispatch_err}

-- `isinstance(v, str) and v`
abbrev pub filled_text : Option Value → Option String
filled_text (some (str s)) = truthy (some s)
filled_text v = none

-- next((r for r in receipts if r.get("task_ref") == task_ref), None)
unfoldable pub find_receipt : String → List Dict → Option Dict
find_receipt task_ref [] = none
find_receipt task_ref (r ∷ rs) =
    if equals_text (get r "task_ref") task_ref then some r else find_receipt task_ref rs

-- The receipt with the acknowledgment merged in.
abbrev pub bilateral : String → Dict → Dict
bilateral sig receipt = set receipt "initiator_ack_signature" (str sig)

module _ (p : Platform) (a : Agent) (e : Env) where
  abbrev pub ack_verified : Context → Option Bytes × Store → Step Bytes
  ack_verified ctx (none, t) s =
      dispatch_err p a e ctx "pact_identity_unresolvable" (record s { store = t })
  ack_verified ctx (some key, t) s =
      if verify_message p ctx.msg key
      then pure key (record s { store = t })
      else dispatch_err p a e ctx "pact_signature_invalid" (record s { store = t })

  unfoldable pub ack_sender : Context → Step Bytes
  ack_sender ctx s =
      ack_verified ctx
        (sender_key p ctx.msg (resolve_sender_key p ctx.msg.from_agent s.store) s.store) s

  abbrev pub or_malformed {ℓ} : {A : Type ℓ} → Context → String → Option A → Step A
  or_malformed ctx code none = dispatch_err p a e ctx code
  or_malformed ctx code (some x) = pure x

  unfoldable pub ack_field : Context → String → Step String
  ack_field ctx name =
      or_malformed ctx "pact_token_malformed" (filled_text (get ctx.msg.payload name))

  unfoldable pub ack_receipt : Context → String → Step Dict
  unfolding find_receipt list_receipts
  ack_receipt ctx task_ref s =
      or_malformed ctx "pact_token_missing" (find_receipt task_ref (list_receipts s.store)) s

  abbrev pub ack_response : Context → Dict → PactMessage
  ack_response ctx payload =
      build_res p (e.fresh 0) a.key a.agent_id ctx.msg (some payload) "ok" none

  abbrev pub bilateral_payload : String → Dict → Dict
  bilateral_payload task_ref rest =
      field "task_ref" (str task_ref) (field "bilateral" (bool true) rest)

  -- A receipt that has this very acknowledgment is left as it is.
  unfoldable pub ack_signature : Context → Bytes → String → String → Dict → Step (Unit {0})
  ack_signature ctx key task_ref sig receipt =
      if equals_text (get receipt "initiator_ack_signature") sig
      then answer (
          one (
            obj (
              message_to_dict (
                ack_response ctx
                  (bilateral_payload task_ref (field "idempotent" (bool true) end))))))
      else if verify_text p (canonical_json (without receipt "initiator_ack_signature"))
          (p.b64decode sig) key
      then pure tt
      else dispatch_err p a e ctx "pact_signature_invalid"

  -- What is merged: the task, the acknowledgment and the receipt.
  abbrev pub with_receipt : Context → Bytes → String → String → Dict → Step (String × String × Dict)
  with_receipt ctx key task_ref sig receipt = do
    ack_signature ctx key task_ref sig receipt
    pure (task_ref, sig, receipt)

  abbrev pub with_fields : Context → Bytes → String → String → Step (String × String × Dict)
  with_fields ctx key task_ref sig = ack_receipt ctx task_ref >>= with_receipt ctx key task_ref sig

  abbrev pub with_task : Context → Bytes → String → Step (String × String × Dict)
  with_task ctx key task_ref =
      ack_field ctx "initiator_ack_signature" >>= with_fields ctx key task_ref

  abbrev pub with_sender : Context → Bytes → Step (String × String × Dict)
  with_sender ctx key = ack_field ctx "task_ref" >>= with_task ctx key

  unfoldable pub ack_checks : PactMessage → Step (String × String × Dict)
  unfolding ack_sender ack_field ack_receipt ack_signature
  ack_checks m = ack_sender (context_start m) >>= with_sender (context_start m)

  unfoldable pub promote : PactMessage → String × String × Dict → Step (Unit {0})
  promote m (task_ref, sig, receipt) = do
    save (save_receipt (bilateral sig receipt))
    answer (
        one
          (obj (message_to_dict (ack_response (context_start m) (bilateral_payload task_ref end)))))

  unfoldable pub handle_initiator_ack : PactMessage → Step (Unit {0})
  unfolding ack_checks promote
  handle_initiator_ack m = ack_checks m >>= promote m
