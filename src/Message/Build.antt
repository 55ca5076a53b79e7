-- ===== src/Message/Build.antt =====
-- build_req, build_res and build_res_chunk of message.py. The fresh uuids and the moment are arguments.
pub mod Laws
pub mod Signed
use pact_passport.Base.{
  ℕ, ◌+◌, ◌-◌, ◌*◌, suc, ℤ, pos, negsuc, Bool, true, false, not, ◌&&◌, String, Option, none, some,
  List, [], ◌∷◌, ◌==◌, string_eq, nat_eq, ltb, leb, if◌then◌else◌,
}
use pact_passport.Json.{
  Value, Items, Dict, null, bool, int, str, arr, obj, nil, end, field, get, has, is_falsy,
}
use pact_passport.Json.Canonical.{canonical_json}
use pact_passport.Errors.{Result, ok, raise, value_error, overflow_error, ◌>>=◌, ◌>>◌, require}
use pact_passport.Platform.{Platform, Bytes}
use pact_passport.Wire.{as_text}
use pact_passport.Capability.{alg_name}
use pact_passport.Message.{PactMessage, holder_proof_payload}
use pact_passport.Message.Dicts.{message_signable_dict}

-- The keyword arguments of build_req.
pub record ReqOptions : Type 0 where
  pub payload : Option Dict
  pub cap_id : Option String
  pub holder_proof_key : Option Bytes
  pub deadline_seconds : ℤ
  pub refs : Option (List String)
  pub identity_doc : Option Dict
  pub cap_envelope : Option Dict
  pub stream : Bool
  pub audit_context : Option Dict
  pub audit_purpose : String

-- `v == s`, for a text s
abbrev pub equals_text : Option Value → String → Bool
equals_text (some (str t)) s = t == s
equals_text _ s = false

-- `d or {}`, and `refs or []`
abbrev pub dict_or : Option Dict → Dict
dict_or none = end
dict_or (some d) = d

abbrev pub list_or {ℓ} : {A : Type ℓ} → Option (List A) → List A
list_or none = []
list_or (some xs) = xs

abbrev only_true : Bool → Option Bool
only_true true = some true
only_true false = none

-- The moment after the last one of a datetime, the end of the year 9999.
abbrev pub end_of_time : ℕ
end_of_time = 315537897600000000

-- Whether `now + timedelta(seconds=s)` is a datetime: OverflowError if not.
abbrev pub is_representable : ℕ → ℤ → Bool
is_representable now (pos s) = ltb (now + s * 1000000) end_of_time
is_representable now (negsuc s) = leb (suc s * 1000000) now

-- now + timedelta(seconds=s), in microseconds, for a representable one
abbrev pub later_by : ℕ → ℤ → ℕ
later_by now (pos s) = now + s * 1000000
later_by now (negsuc s) = now - suc s * 1000000

abbrev pub envelope_cap_id : Option Value → Result (Option String)
envelope_cap_id none = raise value_error
envelope_cap_id (some v) = if is_falsy v then raise value_error else (do s ← as_text v; ok (some s))

unfoldable pub resolve_cap_id : Option Dict → Option String → Result (Option String)
resolve_cap_id (some envelope) none = envelope_cap_id (get envelope "cap_id")
resolve_cap_id _ cap_id = ok cap_id

unfoldable pub resolve_context : Option Dict → String → String → String → String → Result Dict
resolve_context none purpose msg_id to_id deadline = ok (
    field "purpose" (str purpose) (
      field "request_id" (str msg_id)
        (field "audience_hint" (str to_id) (field "expires_at" (str deadline) end))))
resolve_context (some ctx) purpose msg_id to_id deadline = do
  require
      (has ctx "purpose"
        && (has ctx "request_id" && (has ctx "audience_hint" && has ctx "expires_at")))
      value_error
  require (equals_text (get ctx "audience_hint") to_id) value_error
  ok ctx

module _ (p : Platform) where
  -- msg.signature = b64(sign(canonical_json(msg.signable_dict())))
  unfoldable pub sign_message : Bytes → PactMessage → PactMessage
  sign_message key m = record m {
    signature = p.b64encode (p.sign (canonical_json (message_signable_dict m)) key);
  }

  -- `if holder_proof_key`
  unfoldable pub make_proof : Option Bytes → String → Option String → String → Option String
  make_proof none msg_id cap_id to_id = none
  make_proof (some []) msg_id cap_id to_id = none
  make_proof (some (b ∷ bs)) msg_id cap_id to_id =
      some (p.b64encode (p.sign (holder_proof_payload msg_id cap_id to_id) (b ∷ bs)))

  abbrev pub req_message :
      String
      → String
      → String
      → String
      → String
      → String
      → ReqOptions
      → Option String
      → Dict
      → PactMessage
  req_message msg_id idempotency_key deadline from_id to_id intent o cap_id ctx = record {
    id = msg_id;
    type = "REQ";
    from_agent = from_id;
    to_agent = to_id;
    refs = list_or o.refs;
    intent = intent;
    cap_id = cap_id;
    holder_proof = make_proof o.holder_proof_key msg_id cap_id to_id;
    deadline = some deadline;
    idempotency_key = some idempotency_key;
    payload = dict_or o.payload;
    status = none;
    fault = none;
    stream = only_true o.stream;
    chunk_seq = none;
    chunk_final = none;
    identity_doc = o.identity_doc;
    cap_envelope = o.cap_envelope;
    audit_context = some ctx;
    alg = alg_name;
    signature = "";
  }

  unfoldable pub build_req :
      ℕ → String → String → Bytes → String → String → String → ReqOptions → Result PactMessage
  unfolding resolve_cap_id resolve_context
  build_req now msg_id idempotency_key key from_id to_id intent o =
      let deadline = p.isoformat (later_by now o.deadline_seconds) in
      do
        require (is_representable now o.deadline_seconds) overflow_error
        cap_id ← resolve_cap_id o.cap_envelope o.cap_id
        ctx ← resolve_context o.audit_context o.audit_purpose msg_id to_id deadline
        ok (
            sign_message key
              (req_message msg_id idempotency_key deadline from_id to_id intent o cap_id ctx))

  abbrev pub res_message :
      String
      → String
      → String
      → PactMessage
      → Option ℤ
      → Option Bool
      → Option Dict
      → String
      → Option Dict
      → PactMessage
  res_message type msg_id from_id req chunk_seq chunk_final payload status fault = record {
    id = msg_id;
    type = type;
    from_agent = from_id;
    to_agent = req.from_agent;
    refs = req.id ∷ [];
    intent = req.intent;
    cap_id = none;
    holder_proof = none;
    deadline = none;
    idempotency_key = none;
    payload = dict_or payload;
    status = some status;
    fault = fault;
    stream = none;
    chunk_seq = chunk_seq;
    chunk_final = chunk_final;
    identity_doc = none;
    cap_envelope = none;
    audit_context = none;
    alg = alg_name;
    signature = "";
  }

  unfoldable pub build_res :
      String → Bytes → String → PactMessage → Option Dict → String → Option Dict → PactMessage
  build_res msg_id key from_id req payload status fault =
      sign_message key (res_message "RES" msg_id from_id req none none payload status fault)

  unfoldable pub build_res_chunk :
      String
      → Bytes
      → String
      → PactMessage
      → ℤ
      → Bool
      → Option Dict
      → String
      → Option Dict
      → PactMessage
  build_res_chunk msg_id key from_id req chunk_seq chunk_final payload status fault =
      sign_message key (
        res_message "RES_CHUNK" msg_id from_id req (some chunk_seq) (some chunk_final) payload
          status fault)
