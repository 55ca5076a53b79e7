-- ===== src/Message/Build/Laws.antt =====
-- What the builders of messages promise: their messages verify, and a request names its audience.
use pact_passport.Message.Build.Signed.{
  make_proof-HolderShown, HolderShown, verify_message-sign_message,
}
use pact_passport.Wire.{as_text}
use pact_passport.Base.{
  ℕ, ◌≡◌, ◌≢◌, refl, ap, subst, Bool, true, ◌&&◌, String, Option, none, some, arith, eq_iff,
  string_eq, ltb, ℤ, Bool-cases, inl, inr,
}
use pact_passport.Json.{has, is_falsy, null, obj, arr, int, bool, Value, Dict, str, get, field, end}
use pact_passport.Errors.{
  Result, ◌>>=◌, ◌>>◌, ok, value_error, overflow_error, >>=-eq-ok, require, require-eq-ok,
}
use pact_passport.Platform.{isoformat-not_empty, Platform, Bytes, IsLawful}
use pact_passport.Message.{PactMessage}
use pact_passport.Message.Build.{
  envelope_cap_id, ReqOptions, build_req, build_res, build_res_chunk, sign_message, resolve_cap_id,
  resolve_context, req_message, later_by, is_representable, equals_text,
}
use pact_passport.Message.Check.{verify_message, is_deadline_exceeded}

equals_text-eq : (o : Option Value) (s : String) → equals_text o s ≡ true → o ≡ some (str s)
equals_text-eq (some (str t)) s h = ap (λ x. some (str x)) ((eq_iff t s).0 h)
equals_text-eq (some null) s h = ground arith
equals_text-eq (some (bool b)) s h = ground arith
equals_text-eq (some (int n)) s h = ground arith
equals_text-eq (some (arr xs)) s h = ground arith
equals_text-eq (some (obj d)) s h = ground arith
equals_text-eq none s h = ground arith

resolve_context-audience :
    (o : Option Dict) (purpose msg_id to_id deadline : String) (ctx : Dict)
    → resolve_context o purpose msg_id to_id deadline ≡ ok ctx
    → get ctx "audience_hint" ≡ some (str to_id)
unfolding resolve_context get
resolve_context-audience none purpose msg_id to_id deadline ctx h =
    let built : field "purpose" (str purpose) (
          field "request_id" (str msg_id)
            (field "audience_hint" (str to_id) (field "expires_at" (str deadline) end)))
        ≡ ctx =
      ground (arith, h) in
    subst (λ d. get d "audience_hint" ≡ some (str to_id)) built refl
resolve_context-audience (some d) purpose msg_id to_id deadline ctx h =
    let keep : Unit {0} → Result Dict =
      λ _. require (equals_text (get d "audience_hint") to_id) value_error >> ok d in
    let (_, _, h1) =
      >>=-eq-ok
        (require
          (has d "purpose" && (has d "request_id" && (has d "audience_hint" && has d "expires_at")))
          value_error)
        keep h in
    let (_, bound, h2) =
      >>=-eq-ok (require (equals_text (get d "audience_hint") to_id) value_error) (λ _. ok d) h1 in
    let same : d ≡ ctx = ground (arith, h2) in
    subst (λ x. get x "audience_hint" ≡ some (str to_id)) same
      (equals_text-eq (get d "audience_hint") to_id (require-eq-ok _ _ bound))

as_text-present :
    (v : Value) (found : Option String) → (as_text v >>= λ s. ok (some s)) ≡ ok found → found ≢ none
as_text-present v found h = ground (arith, h)

envelope_cap_id-present :
    (o : Option Value) (found : Option String) → envelope_cap_id o ≡ ok found → found ≢ none
envelope_cap_id-present none found h = ground (arith, h)
envelope_cap_id-present (some v) found h = elim (Bool-cases (is_falsy v)) [
  | inl e ↦ absurd (ground (arith, e, h))
  | inr e ↦ as_text-present v found (rw e at h)
]

resolve_cap_id-present :
    (env : Dict) (cap_id found : Option String)
    → resolve_cap_id (some env) cap_id ≡ ok found
    → found ≢ none
unfolding resolve_cap_id
resolve_cap_id-present env (some c) found h = ground (arith, h)
resolve_cap_id-present env none found h = envelope_cap_id-present (get env "cap_id") found h

-- The message names a capability, if an envelope was given.
abbrev pub CapabilityNamed : Option Dict → Option String → Type 0
CapabilityNamed none cap_id = Unit {0}
CapabilityNamed (some envelope) cap_id = cap_id ≢ none

resolve_cap_id-CapabilityNamed :
    (envelope : Option Dict) (cap_id found : Option String)
    → resolve_cap_id envelope cap_id ≡ ok found
    → CapabilityNamed envelope found
resolve_cap_id-CapabilityNamed none cap_id found h = tt
resolve_cap_id-CapabilityNamed (some envelope) cap_id found h =
    resolve_cap_id-present envelope cap_id found h

-- What a request that build_req has built is good for.
pub record BuiltReq (p : Platform) (now : ℕ) (key : Bytes) (from_id to_id : String) (o : ReqOptions)
    (m : PactMessage) : Type 0 where
  pub signed : verify_message p m (p.public_key key) ≡ true
  pub holder : HolderShown p m o.holder_proof_key
  pub addressed : (m.type ≡ "REQ") × (m.from_agent ≡ from_id) × (m.to_agent ≡ to_id)
  pub audience :
      (ctx : Dict) × (m.audit_context ≡ some ctx) × (get ctx "audience_hint" ≡ some (str to_id))
  pub timely :
      (later : ℕ)
      → is_deadline_exceeded p later m ≡ ok (ltb (later_by now o.deadline_seconds) later)
  pub presented : CapabilityNamed o.cap_envelope m.cap_id

module _ (p : Platform) (law : IsLawful p) (now : ℕ) (msg_id idempotency_key : String) (key : Bytes)
    (from_id to_id intent : String) (o : ReqOptions) where
  built_req :
      (cap_id : Option String) (ctx : Dict)
      → resolve_cap_id o.cap_envelope o.cap_id ≡ ok cap_id
      → get ctx "audience_hint" ≡ some (str to_id)
      → BuiltReq p now key from_id to_id o (
          sign_message p key (
            req_message p msg_id idempotency_key
              (p.isoformat (later_by now o.deadline_seconds))
              from_id
              to_id
              intent
              o
              cap_id
              ctx))
  unfolding sign_message is_deadline_exceeded
  built_req cap_id ctx resolved audience = record {
    signed = verify_message-sign_message p law key _;
    holder = make_proof-HolderShown p law o.holder_proof_key _ refl;
    addressed = (refl, refl, refl);
    audience = (ctx, refl, audience);
    timely = λ later. ground (
      arith,
      law.fromisoformat-isoformat (later_by now o.deadline_seconds),
      isoformat-not_empty p law (later_by now o.deadline_seconds),
      eq_iff (p.isoformat (later_by now o.deadline_seconds)) "",
    );
    presented = resolve_cap_id-CapabilityNamed o.cap_envelope o.cap_id cap_id resolved;
  }

  abbrev pub deadline_text : String
  deadline_text = p.isoformat (later_by now o.deadline_seconds)

  abbrev pub built : Option String → Dict → PactMessage
  built cap_id ctx =
      sign_message p key
        (req_message p msg_id idempotency_key deadline_text from_id to_id intent o cap_id ctx)

  pub build_req-eq-ok :
      (m : PactMessage)
      → build_req p now msg_id idempotency_key key from_id to_id intent o ≡ ok m
      → (cap_id : Option String) × (ctx : Dict) × (resolve_cap_id o.cap_envelope o.cap_id
          ≡ ok cap_id)
        × (resolve_context o.audit_context o.audit_purpose msg_id to_id deadline_text ≡ ok ctx)
        × (built cap_id ctx ≡ m)
  unfolding build_req
  build_req-eq-ok m h =
      let made : Option String → Dict → Result PactMessage = λ cap_id ctx. ok (built cap_id ctx) in
      let context = resolve_context o.audit_context o.audit_purpose msg_id to_id deadline_text in
      let rest : Result PactMessage =
        resolve_cap_id o.cap_envelope o.cap_id >>= λ cap_id. context >>= made cap_id in
      let (_, _, h0) =
        >>=-eq-ok (require (is_representable now o.deadline_seconds) overflow_error) (λ _. rest)
          h in
      let (cap_id, resolved, h1) =
        >>=-eq-ok (resolve_cap_id o.cap_envelope o.cap_id) (λ cap_id. context >>= made cap_id) h0 in
      let (ctx, contextual, h2) = >>=-eq-ok context (made cap_id) h1 in
      (cap_id, ctx, resolved, contextual, ground (arith, h2))

  -- A request that build_req returns verifies under the sender's key, carries a holder proof that is
  -- accepted under the holder's key if a holder key was given that is not empty and no proof if none
  -- was, goes to the recipient that its audit context names, is past its deadline exactly after the
  -- moment asked for, and names a capability if an envelope was given.
  pub build_req-BuiltReq :
      (m : PactMessage)
      → build_req p now msg_id idempotency_key key from_id to_id intent o ≡ ok m
      → BuiltReq p now key from_id to_id o m
  build_req-BuiltReq m h =
      let (cap_id, ctx, resolved, contextual, same) = build_req-eq-ok m h in
      subst (BuiltReq p now key from_id to_id o) same (
        built_req cap_id ctx resolved (
          resolve_context-audience o.audit_context o.audit_purpose msg_id to_id deadline_text ctx
            contextual))

  -- A response verifies under the responder's key, and so does every chunk of a stream.
  build_res-verify_message :
      (req : PactMessage) (payload fault : Option Dict) (status : String) (chunk_seq : ℤ)
      (chunk_final : Bool)
      → (verify_message p
            (build_res p msg_id key from_id req payload status fault)
            (p.public_key key)
          ≡ true)
        × (verify_message p
              (build_res_chunk p msg_id key from_id req chunk_seq chunk_final payload status fault)
              (p.public_key key)
            ≡ true)
  unfolding build_res build_res_chunk
  build_res-verify_message req payload fault status chunk_seq chunk_final =
      (verify_message-sign_message p law key _, verify_message-sign_message p law key _)
