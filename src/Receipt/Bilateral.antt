-- ===== src/Receipt/Bilateral.antt =====
-- Which receipts that create_receipt and make_bilateral_receipt return do not verify.
use pact_passport.Base.{
  ℕ, Bool, true, false, none, some, ◌≡◌, ◌≢◌, refl, sym, ◌∙◌, String, List, arith, eq_iff,
  string_eq, lex_le,
}
use pact_passport.Json.{get, without, Dict, str, arr, obj, end, field, set}
use pact_passport.Json.Canonical.{canonical_json, print, sort_items}
use pact_passport.Receipt.Laws.{encoded_not_empty}
use pact_passport.Json.Members.{members_injective, first_members_injective, shared_member}
use pact_passport.Message.Dicts.{text_items}
use pact_passport.Receipt.{receipt_fields, create_receipt, verify_receipt}
use pact_passport.Platform.{Platform, Bytes, IsLawful, IsBinding}
use pact_passport.Audit.Receipts.{make_bilateral_receipt}

module _ (now agent task_ref outcome : String) (refs : List String) where
  abbrev tail_fields : Dict
  tail_fields =
      field "task_ref" (str task_ref)
        (field "timestamp" (str now) (field "type" (str "receipt") end))

  abbrev late_fields : Dict → Dict
  late_fields d =
      field "outcome" (str outcome) (field "refs" (arr (sort_items (text_items refs))) d)

  abbrev all_fields : Dict → Dict
  all_fields d = field "agent" (str agent) (field "alg" (str "Ed25519") d)

  plain_bytes :
      canonical_json (receipt_fields now agent task_ref refs outcome)
      ≡ print (obj (all_fields (late_fields tail_fields)))
  unfolding canonical_json receipt_fields lex_le
  plain_bytes = refl

  ack_bytes :
      (t : String)
      → canonical_json
          (set (receipt_fields now agent task_ref refs outcome) "initiator_ack_signature" (str t))
        ≡ print
            (obj (all_fields (field "initiator_ack_signature" (str t) (late_fields tail_fields))))
  unfolding canonical_json receipt_fields lex_le set
  ack_bytes t = refl

  extra_bytes :
      (x : String)
      → canonical_json (set (receipt_fields now agent task_ref refs outcome) "signature" (str x))
        ≡ print (obj (all_fields (late_fields (field "signature" (str x) tail_fields))))
  unfolding canonical_json receipt_fields lex_le set
  extra_bytes x = refl

  ack-not-plain :
      (t : String)
      → canonical_json
          (set (receipt_fields now agent task_ref refs outcome) "initiator_ack_signature" (str t))
        ≢ canonical_json (receipt_fields now agent task_ref refs outcome)
  ack-not-plain t h =
      let (_, _, h1) = first_members_injective _ _ _ _ _ _ (sym (ack_bytes t) ∙ h ∙ plain_bytes) in
      let (_, _, h2) = members_injective _ _ _ _ _ _ _ _ h1 in
      let (keys, _, _) = members_injective _ _ _ _ _ _ _ _ h2 in
      ground (arith, eq_iff "initiator_ack_signature" "outcome", keys)

  extra-not-plain :
      (x : String)
      → canonical_json (receipt_fields now agent task_ref refs outcome)
        ≢ canonical_json (set (receipt_fields now agent task_ref refs outcome) "signature" (str x))
  extra-not-plain x h =
      let (_, _, h1) = first_members_injective _ _ _ _ _ _ (sym plain_bytes ∙ h ∙ extra_bytes x) in
      let (_, _, h2) = members_injective _ _ _ _ _ _ _ _ h1 in
      let (_, _, h3) = members_injective _ _ _ _ _ _ _ _ h2 in
      let (keys, _, _) = members_injective _ _ _ _ _ _ _ _ (shared_member _ _ _ _ _ _ h3) in
      ground (arith, eq_iff "task_ref" "signature", keys)

refuted : (b : Bool) → b ≢ true → b ≡ false
refuted true h = absurd (h refl)
refuted false h = refl

module _ (p : Platform) (law : IsLawful p) (binding : IsBinding p) (now : ℕ) (key : Bytes)
    (agent task_ref outcome : String) (refs : List String) where
  -- A receipt whose signature is the one of the dict r verifies only if the bytes of its rest are r's.
  verified_bytes :
      (d r : Dict)
      → get d "signature" ≡ some (str (p.b64encode (p.sign (canonical_json r) key)))
      → verify_receipt p d (p.public_key key) ≡ true
      → canonical_json (without d "signature") ≡ canonical_json r
  unfolding verify_receipt
  verified_bytes d r found h =
      let sig = p.sign (canonical_json r) key in
      binding.binds _ _ key (
        ground (
          arith,
          found,
          law.b64decode-b64encode sig,
          encoded_not_empty p law (canonical_json r) key,
          h,
        ))

  -- Where a signature binds its message, verify_receipt refuses what make_bilateral_receipt returns for
  -- a receipt that create_receipt has just made without extra fields: the acknowledgment, added after
  -- the signature, is part of what verify_receipt checks.
  pub verify_receipt-make_bilateral_receipt :
      (ack_key : Bytes)
      → verify_receipt p
          (make_bilateral_receipt p
            (create_receipt p now key agent task_ref refs outcome none)
            ack_key)
          (p.public_key key)
        ≡ false
  unfolding make_bilateral_receipt create_receipt get set without
  verify_receipt-make_bilateral_receipt ack_key = refuted _ (λ h.
      ack-not-plain (p.isoformat now) agent task_ref outcome refs _ (
        verified_bytes
          (make_bilateral_receipt p (create_receipt p now key agent task_ref refs outcome none)
            ack_key)
          (receipt_fields (p.isoformat now) agent task_ref refs outcome) refl h))

  -- Where a signature binds its message, a receipt that create_receipt makes with an extra field named
  -- "signature" does not verify under its creator's key: the extra value is signed, then replaced.
  create_receipt-extra_signature :
      (x : String)
      → verify_receipt p
          (create_receipt p now key agent task_ref refs outcome
            (some (field "signature" (str x) end)))
          (p.public_key key)
        ≡ false
  unfolding create_receipt get set without
  create_receipt-extra_signature x = refuted _ (λ h.
      extra-not-plain (p.isoformat now) agent task_ref outcome refs x (
        verified_bytes
          (create_receipt p now key agent task_ref refs outcome
            (some (field "signature" (str x) end)))
          (set (receipt_fields (p.isoformat now) agent task_ref refs outcome) "signature" (str x))
          refl h))
