-- ===== src/Agent/Ack/Passed.antt =====
-- What the steps of _handle_initiator_ack of agent.py have checked when they let an acknowledgment through.
use pact_passport.Base.{
  ◌≡◌, ◌∙◌, sym, ap, subst, true, false, Bool-cases, inl, inr, String, Option, none, some, arith,
}
use pact_passport.Json.{Dict, get, without}
use pact_passport.Json.Canonical.{canonical_json}
use pact_passport.Platform.{Platform, Bytes}
use pact_passport.Message.Build.{equals_text}
use pact_passport.Message.Check.{verify_message, verify_text}
use pact_passport.Store.{Store, list_receipts}
use pact_passport.Agent.State.{Agent, AgentState, Env, Context, next, after-eq-next}
use pact_passport.Agent.Ack.{
  filled_text, find_receipt, ack_verified, or_malformed, ack_field, ack_receipt, ack_signature,
  with_receipt, with_fields, with_sender,
}
use pact_passport.Agent.Refusals.{dispatch_err-IsFinal, unless_refused}

module _ (p : Platform) (a : Agent) (e : Env) where
  or_malformed-eq-next {ℓ} :
      {A : Type ℓ} (ctx : Context) (code : String) (o : Option A) (s : AgentState) {x : A}
      {u : AgentState}
      → or_malformed p a e ctx code o s ≡ (next x, u)
      → (o ≡ some x) × (s ≡ u)
  or_malformed-eq-next ctx code none s {x} {u} h =
      absurd (dispatch_err-IsFinal p a e ctx code s x u h)
  or_malformed-eq-next ctx code (some y) s h = ground (arith, h)

  pub ack_verified-eq-next :
      (ctx : Context) (r : Option Bytes × Store) (s : AgentState) {key : Bytes} {u : AgentState}
      → ack_verified p a e ctx r s ≡ (next key, u)
      → (r ≡ (some key, u.store))
        × (verify_message p ctx.msg key ≡ true)
        × (u ≡ record s { store = u.store })
  ack_verified-eq-next ctx (none, t) s {key} {u} h =
      absurd (
        dispatch_err-IsFinal p a e ctx "pact_identity_unresolvable" (record s { store = t }) key u
          h)
  ack_verified-eq-next ctx (some k, t) s {key} {u} h =
      let (good, same, after) =
        unless_refused p a e ctx "pact_signature_invalid" (verify_message p ctx.msg k) k
          (record s { store = t }) (record s { store = t }) h in
      (
        λ i. (some (same i), (after i).store),
        subst (λ x. verify_message p ctx.msg x ≡ true) same good,
        sym after ∙ ap (λ (x : AgentState). record s { store = x.store }) after,
      )

  ack_signature-eq-next :
      (ctx : Context) (key : Bytes) (task_ref sig : String) (receipt : Dict) (s : AgentState)
      {x : Unit {0}} {u : AgentState}
      → ack_signature p a e ctx key task_ref sig receipt s ≡ (next x, u)
      → (equals_text (get receipt "initiator_ack_signature") sig ≡ false)
        × (verify_text p
              (canonical_json (without receipt "initiator_ack_signature"))
              (p.b64decode sig)
              key
            ≡ true)
        × (s ≡ u)
  unfolding ack_signature
  ack_signature-eq-next ctx key task_ref sig receipt s {x} {u} h =
      elim (Bool-cases (equals_text (get receipt "initiator_ack_signature") sig)) [
        | inl same ↦ cc (simp same at h)
        | inr other ↦
            elim (Bool-cases (
              verify_text p (canonical_json (without receipt "initiator_ack_signature"))
                (p.b64decode sig) key)) [
                  | inl good ↦ (other, good, ground (arith, simp (other, good) at h))
                  | inr bad ↦ absurd (
                      dispatch_err-IsFinal p a e ctx "pact_signature_invalid" s x u
                        (simp (other, bad) at h))
                ]
      ]

  abbrev Closes : Bytes → String → Dict → Type 0
  Closes key sig receipt =
      (equals_text (get receipt "initiator_ack_signature") sig ≡ false)
      × (verify_text p (canonical_json (without receipt "initiator_ack_signature"))
            (p.b64decode sig) key
          ≡ true)

  with_receipt-eq-next :
      (ctx : Context) (key : Bytes) (task_ref sig : String) (receipt : Dict) (s : AgentState)
      {r : String × String × Dict} {u : AgentState}
      → with_receipt p a e ctx key task_ref sig receipt s ≡ (next r, u)
      → (Closes key sig receipt) × ((task_ref, sig, receipt) ≡ r) × (s ≡ u)
  with_receipt-eq-next ctx key task_ref sig receipt s {r} {u} h =
      let (_, s1, first, h1) =
        after-eq-next (ack_signature p a e ctx key task_ref sig receipt s) _ h in
      let (fresh, verified, same) = ack_signature-eq-next ctx key task_ref sig receipt s first in
      let last : s1 ≡ u = ground (arith, h1) in ((fresh, verified), ground (arith, h1), same ∙ last)

  with_fields-eq-next :
      (ctx : Context) (key : Bytes) (task_ref sig : String) (s : AgentState)
      {r : String × String × Dict} {u : AgentState}
      → with_fields p a e ctx key task_ref sig s ≡ (next r, u)
      → (receipt : Dict) × (find_receipt task_ref (list_receipts s.store) ≡ some receipt)
        × (Closes key sig receipt)
        × ((task_ref, sig, receipt) ≡ r)
        × (s ≡ u)
  unfolding ack_receipt
  with_fields-eq-next ctx key task_ref sig s {r} {u} h =
      let (receipt, s1, first, h1) = after-eq-next (ack_receipt p a e ctx task_ref s) _ h in
      let (found, same) =
        or_malformed-eq-next ctx "pact_token_missing"
          (find_receipt task_ref (list_receipts s.store)) s first in
      let (closes, parts, last) = with_receipt-eq-next ctx key task_ref sig receipt s1 h1 in
      (receipt, found, closes, parts, same ∙ last)

  ack_field-eq-next :
      (ctx : Context) (name : String) (s : AgentState) {x : String} {u : AgentState}
      → ack_field p a e ctx name s ≡ (next x, u)
      → (filled_text (get ctx.msg.payload name) ≡ some x) × (s ≡ u)
  unfolding ack_field
  ack_field-eq-next ctx name s h = or_malformed-eq-next ctx "pact_token_malformed" _ s h

  -- The fields and the receipt that follow once the sender has been verified.
  pub with_sender-eq-next :
      (ctx : Context) (key : Bytes) (s : AgentState) {r : String × String × Dict} {u : AgentState}
      → with_sender p a e ctx key s ≡ (next r, u)
      → (task_ref : String) × (sig : String) × (receipt : Dict) × (filled_text
            (get ctx.msg.payload "task_ref")
          ≡ some task_ref)
        × (filled_text (get ctx.msg.payload "initiator_ack_signature") ≡ some sig)
        × (find_receipt task_ref (list_receipts s.store) ≡ some receipt)
        × (Closes key sig receipt)
        × ((task_ref, sig, receipt) ≡ r)
        × (s ≡ u)
  with_sender-eq-next ctx key s {r} {u} h =
      let (task_ref, s1, first, h1) = after-eq-next (ack_field p a e ctx "task_ref" s) _ h in
      let (sig, s2, second, h2) =
        after-eq-next (ack_field p a e ctx "initiator_ack_signature" s1) _ h1 in
      let (task, same1) = ack_field-eq-next ctx "task_ref" s first in
      let (ack, same2) = ack_field-eq-next ctx "initiator_ack_signature" s1 second in
      let (receipt, found, closes, parts, last) = with_fields-eq-next ctx key task_ref sig s2 h2 in
      (
        task_ref,
        sig,
        receipt,
        task,
        ack,
        subst (λ (x : AgentState). find_receipt task_ref (list_receipts x.store) ≡ some receipt)
            (sym (same1 ∙ same2)) found,
        closes,
        parts,
        same1 ∙ same2 ∙ last,
      )
