-- ===== src/Receipt/Laws.antt =====
-- Receipts verify, and what the caller adds does not replace what the receipt says.
use pact_passport.Json.Canonical.{canonical_json}
use pact_passport.Base.{
  refl, true, ◌≢◌, List, ℕ, Option, ◌≡◌, ◌∙◌, false, String, none, some, arith, eq_iff, string_eq,
  ◌==◌, Bool-cases, inl, inr,
}
use pact_passport.Platform.{IsLawful, Bytes, Platform}
use pact_passport.Json.{without, str, Value, Dict, end, field, get, has, set}
use pact_passport.Json.Dicts.{without_absent, without-set, get-set}
use pact_passport.Receipt.{
  sign_receipt, receipt_fields, extended, create_receipt, verify_receipt, add_extra,
}

-- A field that is there keeps its value.
add_extra-get :
    (extra d : Dict) (k : String) (v : Value)
    → get d k ≡ some v
    → get (add_extra d extra) k ≡ some v
unfolding add_extra
add_extra-get end d k v h = h
add_extra-get (field j w extra) d k v h = elim (Bool-cases (has d j)) [
  | inl e ↦ rw e (add_extra-get extra d k v h)
  | inr e ↦
      rw e
        (add_extra-get extra (set d j w) k v (get-set d j k w ∙ ground (arith, eq_iff j k, e, h)))
]

add_extra-absent :
    (extra d : Dict) (k : String)
    → get d k ≡ none
    → get extra k ≡ none
    → get (add_extra d extra) k ≡ none
unfolding add_extra get
add_extra-absent end d k h away = h
add_extra-absent (field j w extra) d k h away =
    let other : (j == k) ≡ false = ground (arith, away) in
    let rest : get extra k ≡ none = ground (arith, away) in
    elim (Bool-cases (has d j)) [
      | inl e ↦ rw e (add_extra-absent extra d k h rest)
      | inr e ↦
          rw e
            (add_extra-absent extra (set d j w) k (get-set d j k w ∙ ground (arith, other, h)) rest)
    ]

pub extended-get :
    (extra : Option Dict) (d : Dict) (k : String) (v : Value)
    → get d k ≡ some v
    → get (extended d extra) k ≡ some v
extended-get none d k v h = h
extended-get (some e) d k v h = add_extra-get e d k v h

-- The extra fields do not have the key.
abbrev pub Lacks : Option Dict → String → Type 0
Lacks none k = Unit {0}
Lacks (some e) k = get e k ≡ none

pub extended-absent :
    (extra : Option Dict) (d : Dict) (k : String)
    → get d k ≡ none
    → Lacks extra k
    → get (extended d extra) k ≡ none
extended-absent none d k h away = h
extended-absent (some e) d k h away = add_extra-absent e d k h away

module _ (p : Platform) where
  -- Each field that create_receipt sets itself, other than the signature, has the value of its
  -- argument, whatever extra fields the caller adds.
  pub create_receipt-reserved :
      (now : ℕ) (key : Bytes) (agent_id task_ref : String) (refs : List String) (outcome : String)
      (extra : Option Dict) (k : String) (v : Value)
      → k ≢ "signature"
      → get (receipt_fields (p.isoformat now) agent_id task_ref refs outcome) k ≡ some v
      → get (create_receipt p now key agent_id task_ref refs outcome extra) k ≡ some v
  unfolding create_receipt get
  create_receipt-reserved now key agent_id task_ref refs outcome extra k v other h =
      get-set (extended (receipt_fields (p.isoformat now) agent_id task_ref refs outcome) extra)
        "signature" k _
      ∙ ground (
        arith,
        eq_iff "signature" k,
        other,
        extended-get extra (receipt_fields (p.isoformat now) agent_id task_ref refs outcome) k v h,
      )

  pub encoded_not_empty : IsLawful p → (m k : Bytes) → (p.b64encode (p.sign m k) == "") ≡ false
  encoded_not_empty law m k =
      ground (arith, eq_iff (p.b64encode (p.sign m k)) "", law.b64encode-sign m k)

  pub verify_receipt-sign_receipt :
      IsLawful p
      → (key : Bytes) (receipt : Dict) → get receipt "signature" ≡ none
      → verify_receipt p (sign_receipt p key receipt) (p.public_key key) ≡ true
  unfolding verify_receipt
  verify_receipt-sign_receipt law key receipt absent =
      let sig = p.sign (canonical_json receipt) key in
      let text = p.b64encode sig in
      let found : get (set receipt "signature" (str text)) "signature" ≡ some (str text) =
        get-set receipt "signature" "signature" (str text)
        ∙ ground (arith, eq_iff "signature" "signature") in
      let body : without (set receipt "signature" (str text)) "signature" ≡ receipt =
        without-set receipt "signature" (str text) ∙ without_absent receipt "signature" absent in
      simp (
        found,
        body,
        law.b64decode-b64encode,
        law.verify-sign,
        encoded_not_empty law (canonical_json receipt) key,
      )

  -- A receipt verifies under the key of the agent that created it, unless the caller's extra fields
  -- have one named "signature".
  pub create_receipt-verify_receipt :
      IsLawful p
      → (now : ℕ) (key : Bytes) (agent_id task_ref : String) (refs : List String) (outcome : String)
        (extra : Option Dict)
      → Lacks extra "signature"
      → verify_receipt p
          (create_receipt p now key agent_id task_ref refs outcome extra)
          (p.public_key key)
        ≡ true
  unfolding create_receipt get
  create_receipt-verify_receipt law now key agent_id task_ref refs outcome extra away =
      verify_receipt-sign_receipt law key _ (
        extended-absent extra (receipt_fields (p.isoformat now) agent_id task_ref refs outcome)
          "signature" refl away)
