-- ===== src/Audit/Requests/Laws.antt =====
-- A request that build_req builds passes the audit.
use pact_passport.Message.Build.Signed.{HolderShown}
use pact_passport.Message.{PactMessage}
use pact_passport.Message.Check.{verify_message}
use pact_passport.Receipt.Laws.{encoded_not_empty}
use pact_passport.Base.{
  ◌∷◌, if◌then◌else◌, ◌≡◌, refl, true, false, none, some, String, Option, eq_refl, ltb, ◌==◌, ap,
  sym, ◌∙◌, contains, [], ℕ, ◌≤◌, subst, arith, string_eq, is_blank,
}
use pact_passport.Json.{Dict, str, get, end, field}
use pact_passport.Errors.{ok}
use pact_passport.Platform.{Platform, IsLawful, isoformat-not_blank, Bytes}
use pact_passport.Message.Build.{sign_message, later_by, build_req, ReqOptions, resolve_context}
use pact_passport.Audit.{add_warning, AuditResult}
use pact_passport.Audit.Requests.{
  req_start, audit_proof, recommended_audit_purposes, audit_holder, audit_req, audit_sender,
  audit_context, check_purpose,
}
use pact_passport.Wire.{truthy}
use pact_passport.Message.Build.Laws.{build_req-eq-ok, build_req-BuiltReq}

module _ (p : Platform) (law : IsLawful p) (now : ℕ) where
  -- The context that build_req writes has no fault.
  made_context :
      (purpose msg_id to_id : String) (t : ℕ) (ctx : Dict) (r : AuditResult)
      → resolve_context none purpose msg_id to_id (p.isoformat t) ≡ ok ctx
      → is_blank purpose ≡ false
      → is_blank msg_id ≡ false
      → now ≤ t
      → audit_context p now to_id (some ctx) r ≡ check_purpose (some (str purpose)) r
  unfolding audit_context resolve_context get
  made_context purpose msg_id to_id t ctx r h purposeful named fresh =
      let made : field "purpose" (str purpose) (
            field "request_id" (str msg_id)
              (field "audience_hint" (str to_id) (field "expires_at" (str (p.isoformat t)) end)))
          ≡ ctx =
        ground (arith, h) in
      let timely : ltb t now ≡ false = ground arith in
      subst (λ c. audit_context p now to_id (some c) r ≡ check_purpose (some (str purpose)) r) made
        (simp (
          purposeful,
          named,
          isoformat-not_blank p law t,
          law.fromisoformat-isoformat t,
          eq_refl to_id,
          timely,
        ))

  signed_sender :
      (m : PactMessage) (key : Bytes) (r : AuditResult)
      → (m.signature == "") ≡ false
      → verify_message p m key ≡ true
      → audit_sender p m (some key) r ≡ r
  unfolding audit_sender
  signed_sender m key r present good = simp (present, good)

  -- The key that the audit of a holder proof takes, for the one that build_req took.
  abbrev pub holder_public : Option Bytes → Option Bytes
  holder_public none = none
  holder_public (some k) = some (p.public_key k)

  proved_holder :
      (m : PactMessage) (k : Option Bytes) (r : AuditResult)
      → HolderShown p m k
      → audit_holder p m (holder_public k) r ≡ r
  unfolding audit_holder
  proved_holder m none r shown = refl
  proved_holder m (some []) r shown = simp shown
  proved_holder m (some (b ∷ bs)) r shown =
      elim (truthy m.holder_proof) as (λ o. audit_proof p m o (p.public_key (b ∷ bs)) r ≡ r) [
        | none ↦ refl
        | some text ↦ rw (shown true) refl
      ]

  unmarked :
      (purpose : String) (r : AuditResult)
      → ((check_purpose (some (str purpose)) r).passed ≡ r.passed)
        × ((check_purpose (some (str purpose)) r).errors ≡ r.errors)
  unfolding add_warning
  unmarked purpose r =
      elim (contains recommended_audit_purposes purpose)
        as (λ b.
          ((if b then r else add_warning "uncommon_purpose" r).passed ≡ r.passed)
          × ((if b then r else add_warning "uncommon_purpose" r).errors ≡ r.errors)) [
            | true ↦ (refl, refl)
            | false ↦ (refl, refl)
          ]

  -- A request that build_req builds, with an audit context of its own making, a purpose and an
  -- identifier that are not blank, passes the audit without an error as long as its deadline is not
  -- past: under the sender's key, and under the holder's if one was given.
  pub audit_req-build_req :
      (sent : ℕ) (msg_id idempotency_key : String) (key : Bytes) (from_id to_id intent : String)
      (o : ReqOptions) (m : PactMessage)
      → build_req p sent msg_id idempotency_key key from_id to_id intent o ≡ ok m
      → o.audit_context ≡ none
      → is_blank o.audit_purpose ≡ false
      → is_blank msg_id ≡ false
      → now ≤ later_by sent o.deadline_seconds
      → let r : AuditResult =
          audit_req p now m (some (p.public_key key)) (holder_public o.holder_proof_key) in
        (r.passed ≡ true) × (r.errors ≡ [])
  unfolding audit_req sign_message
  audit_req-build_req sent msg_id idempotency_key key from_id to_id intent o m h plain purposeful
        named fresh =
      let (cap_id, ctx, resolved, contextual, same) =
        build_req-eq-ok p law sent msg_id idempotency_key key from_id to_id intent o m h in
      let good =
        build_req-BuiltReq p law sent msg_id idempotency_key key from_id to_id intent o m h in
      let r = req_start p m in
      let sender = p.public_key key in
      let in_context : audit_context p now m.to_agent m.audit_context r
          ≡ check_purpose (some (str o.audit_purpose)) r =
        ap (λ a. audit_context p now a m.audit_context r) good.addressed.2
        ∙ ap (λ c. audit_context p now to_id c r) (sym (ap (λ x. x.audit_context) same))
        ∙ made_context o.audit_purpose msg_id to_id _ ctx r
            (subst
              (λ c.
                resolve_context c o.audit_purpose msg_id to_id
                  (p.isoformat (later_by sent o.deadline_seconds))
                ≡ ok ctx)
              plain contextual)
            purposeful named fresh in
      let present : (m.signature == "") ≡ false =
        subst (λ x. (x.signature == "") ≡ false) same (encoded_not_empty p law _ key) in
      let all : audit_req p now m (some sender) (holder_public o.holder_proof_key)
          ≡ check_purpose (some (str o.audit_purpose)) r =
        proved_holder m o.holder_proof_key _ good.holder
        ∙ signed_sender m sender _ present good.signed
        ∙ in_context in
      let (kept, faults) = unmarked o.audit_purpose r in
      (ap (λ x. x.passed) all ∙ kept, ap (λ x. x.errors) all ∙ faults)
