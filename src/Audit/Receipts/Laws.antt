-- ===== src/Audit/Receipts/Laws.antt =====
-- A bilateral receipt is what the audit of receipts accepts.
use pact_passport.Errors.Faults.{pact_signature_invalid}
use pact_passport.Base.{
  ◌≡◌, ◌↔◌, refl, sym, ap, ◌∙◌, Bool, true, false, String, Option, none, some, arith, eq_iff,
  string_eq, if◌then◌else◌, Bool-cases, inl, inr,
}
use pact_passport.Json.{Value, Dict, str, null, bool, int, arr, obj, get, set, without, is_falsy}
use pact_passport.Json.Canonical.{canonical_json}
use pact_passport.Json.Dicts.{get-set, get-without, without_absent, without-set, without_comm}
use pact_passport.Platform.{Platform, Bytes, IsLawful}
use pact_passport.Receipt.{verify_found, verify_receipt, verify_value}
use pact_passport.Audit.{note, AuditResult, expect, add_error}
use pact_passport.Audit.Receipts.{
  audit_receiver, audit_ack, audit_ack_value, audit_receiver_value, audit_receipt, receipt_start,
  conclude, make_bilateral_receipt, sign_initiator_ack,
}

module _ (p : Platform) where
  -- The acknowledgment verifies under the initiator's key.
  abbrev pub Acknowledged : Dict → Bytes → Type 0
  Acknowledged receipt key =
      (sig : Value) × (get receipt "initiator_ack_signature" ≡ some sig)
      × (verify_value p (canonical_json (without receipt "initiator_ack_signature")) sig key ≡ true)

  expect-passed :
      (b : Bool) (code : String) (r : AuditResult)
      → (expect b code r).passed ≡ true
      → (b ≡ true) × (r.passed ≡ true)
  unfolding add_error
  expect-passed true code r h = (refl, h)
  expect-passed false code r h = ground (arith, h)

  receiver_value :
      (receipt : Dict) (o : Option Value) (key : Bytes) (r : AuditResult)
      → (audit_receiver_value p (canonical_json (without receipt "signature")) o key r).passed
        ≡ true
      → (r.passed ≡ true) × (verify_found p receipt o key ≡ true)
  unfolding add_error
  receiver_value receipt none key r h = ground (arith, h)
  receiver_value receipt (some sig) key r h = elim (Bool-cases (is_falsy sig)) [
    | inl e ↦ ground (arith, e, h)
    | inr e ↦
        let (good, before) = expect-passed _ pact_signature_invalid r (rw e at h) in
        (before, rw e good)
  ]

  value_receiver :
      (receipt : Dict) (o : Option Value) (key : Bytes) (r : AuditResult)
      → verify_found p receipt o key ≡ true
      → audit_receiver_value p (canonical_json (without receipt "signature")) o key r ≡ r
  value_receiver receipt none key r h = cc
  value_receiver receipt (some sig) key r h = elim (Bool-cases (is_falsy sig)) [
    | inl e ↦ ground (arith, e, h)
    | inr e ↦
        let good : verify_value p (canonical_json (without receipt "signature")) sig key ≡ true =
          rw e at h in
        rw (e, good) refl
  ]

  -- Without the acknowledgment, the signature and what it signs are the same.
  kept_signature :
      (receipt : Dict)
      → get (without receipt "initiator_ack_signature") "signature" ≡ get receipt "signature"
  kept_signature receipt =
      get-without receipt "initiator_ack_signature" "signature"
      ∙ ground (arith, eq_iff "initiator_ack_signature" "signature")

  audit_receiver-eq :
      (receipt : Dict) (key : Bytes) (r : AuditResult)
      → audit_receiver p receipt key r
        ≡ audit_receiver_value p
            (canonical_json (without (without receipt "initiator_ack_signature") "signature"))
            (get (without receipt "initiator_ack_signature") "signature")
            key
            r
  unfolding audit_receiver
  audit_receiver-eq receipt key r =
      simp (kept_signature receipt, without_comm receipt "initiator_ack_signature" "signature")

  receiver_part :
      (receipt : Dict) (key : Bytes) (r : AuditResult)
      → (audit_receiver p receipt key r).passed ≡ true
      → (r.passed ≡ true)
        × (verify_receipt p (without receipt "initiator_ack_signature") key ≡ true)
  unfolding verify_receipt
  receiver_part receipt key r h =
      receiver_value (without receipt "initiator_ack_signature")
        (get (without receipt "initiator_ack_signature") "signature") key r
        (sym (ap (λ x. x.passed) (audit_receiver-eq receipt key r)) ∙ h)

  part_receiver :
      (receipt : Dict) (key : Bytes) (r : AuditResult)
      → verify_receipt p (without receipt "initiator_ack_signature") key ≡ true
      → audit_receiver p receipt key r ≡ r
  unfolding verify_receipt
  part_receiver receipt key r h =
      audit_receiver-eq receipt key r
      ∙ value_receiver (without receipt "initiator_ack_signature")
          (get (without receipt "initiator_ack_signature") "signature") key r h

  ack_value :
      (payload : Bytes) (o : Option Value) (key : Bytes) (r : AuditResult)
      → (audit_ack_value p payload o (some key) r).passed ≡ true
      → (r.passed ≡ true) × (sig : Value) × (o ≡ some sig) × (verify_value p payload sig key ≡ true)
  unfolding add_error
  ack_value payload none key r h = ground (arith, h)
  ack_value payload (some null) key r h = ground (arith, h)
  ack_value payload (some (bool b)) key r h = ground (arith, h)
  ack_value payload (some (int n)) key r h = ground (arith, h)
  ack_value payload (some (arr xs)) key r h = ground (arith, h)
  ack_value payload (some (obj d)) key r h = ground (arith, h)
  ack_value payload (some (str s)) key r h =
      let (good, before) =
        expect-passed (verify_value p payload (str s) key) pact_signature_invalid r h in
      (before, str s, refl, good)

  value_ack :
      (payload : Bytes) (sig : Value) (key : Bytes) (r : AuditResult)
      → verify_value p payload sig key ≡ true
      → audit_ack_value p payload (some sig) (some key) r ≡ r
  value_ack payload (str s) key r h = rw h refl
  value_ack payload null key r h = ground (arith, h)
  value_ack payload (bool b) key r h = ground (arith, h)
  value_ack payload (int n) key r h = ground (arith, h)
  value_ack payload (arr xs) key r h = ground (arith, h)
  value_ack payload (obj d) key r h = ground (arith, h)

  conclude-passed : (r : AuditResult) → (conclude r).passed ≡ r.passed
  conclude-passed r =
      elim (r.passed)
        as (λ b.
          (if b then note "bilateral_signature_status" (str "verified") r else r).passed
          ≡ r.passed) [ true ↦ refl | false ↦ refl ]

  -- With both keys, the audit of a receipt passes exactly if the receipt without the acknowledgment
  -- verifies under the receiver's key and it has an acknowledgment that verifies under the initiator's.
  pub audit_receipt-passed :
      (receipt : Dict) (receiver_key initiator_key : Bytes)
      → ((audit_receipt p receipt receiver_key (some initiator_key)).passed ≡ true) ↔ (
          (verify_receipt p (without receipt "initiator_ack_signature") receiver_key ≡ true)
          × Acknowledged receipt initiator_key)
  unfolding audit_receipt audit_ack
  audit_receipt-passed receipt receiver_key initiator_key = (
    λ h.
        let start = audit_receiver p receipt receiver_key (receipt_start receipt) in
        let (before, sig, found, verified) =
          ack_value (canonical_json (without receipt "initiator_ack_signature"))
            (get receipt "initiator_ack_signature") initiator_key start
            (sym (conclude-passed (audit_ack p receipt (some initiator_key) start)) ∙ h) in
        (
          (receiver_part receipt receiver_key (receipt_start receipt) before).1,
          (sig, found, verified),
        ),
    λ h.
        let (good, (sig, found, acked)) = h in
        let same = part_receiver receipt receiver_key (receipt_start receipt) good in
        conclude-passed _
        ∙ ap (λ x. x.passed)
            (ap
                (λ o.
                  audit_ack_value p (canonical_json (without receipt "initiator_ack_signature")) o
                    (some initiator_key)
                    (audit_receiver p receipt receiver_key (receipt_start receipt)))
                found
              ∙ value_ack _ sig initiator_key _ acked
              ∙ same),
  )

  -- A receipt that verifies and has no acknowledgment yet passes the audit, under both keys, once
  -- make_bilateral_receipt has added the initiator's.
  pub audit_receipt-make_bilateral_receipt :
      IsLawful p
      → (receipt : Dict) (receiver_key key : Bytes) → verify_receipt p receipt receiver_key ≡ true
      → get receipt "initiator_ack_signature" ≡ none
      → (audit_receipt p
          (make_bilateral_receipt p receipt key)
          receiver_key
          (some (p.public_key key))).passed
        ≡ true
  unfolding make_bilateral_receipt sign_initiator_ack
  audit_receipt-make_bilateral_receipt law receipt receiver_key key good absent =
      let k : String = "initiator_ack_signature" in
      let text = p.b64encode (p.sign (canonical_json (without receipt k)) key) in
      let bare : without (set receipt k (str text)) k ≡ receipt =
        without-set receipt k (str text) ∙ without_absent receipt k absent in
      let found : get (set receipt k (str text)) k ≡ some (str text) =
        get-set receipt k k (str text) ∙ ground (arith, eq_iff k k) in
      let acked : verify_value p (canonical_json (without (set receipt k (str text)) k)) (str text)
            (p.public_key key)
          ≡ true =
        simp (without-set receipt k (str text), law.b64decode-b64encode, law.verify-sign) in
      (audit_receipt-passed (set receipt k (str text)) receiver_key (p.public_key key)).1
        (ap (λ d. verify_receipt p d receiver_key) bare ∙ good, (str text, found, acked))
