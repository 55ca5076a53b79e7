-- ===== src/Message/Dicts.antt =====
-- to_dict, from_dict and signable_dict of PACTMessage.
pub mod RoundTrip
use pact_passport.Base.{ℤ, ◌==◌, string_eq, Bool, String, Option, none, some, List, [], ◌∷◌}
use pact_passport.Json.{
  Value, Items, Dict, null, bool, int, str, arr, obj, nil, cons, end, field, get, without,
  opt_field,
}
use pact_passport.Errors.{Result, ok, raise, type_error, ◌>>=◌}
use pact_passport.Wire.{text_value, as_text, as_list, as_dict, need_text, maybe_text, text_or}
use pact_passport.Capability.{alg_name}
use pact_passport.Capability.Dicts.{items_or_nil}
use pact_passport.Message.{PactMessage}

unfoldable pub text_items : List String → Items
text_items [] = nil
text_items (s ∷ ss) = cons (str s) (text_items ss)

unfoldable pub texts_of : Items → Result (List String)
texts_of nil = ok []
texts_of (cons v xs) = let rest = texts_of xs in do s ← as_text v; ss ← rest; ok (s ∷ ss)

abbrev pub dict_value : Option Dict → Option Value
dict_value none = none
dict_value (some d) = some (obj d)

abbrev pub bool_value : Option Bool → Option Value
bool_value none = none
bool_value (some b) = some (bool b)

abbrev pub int_value : Option ℤ → Option Value
int_value none = none
int_value (some n) = some (int n)

-- `if self.payload`
abbrev pub payload_value : Dict → Option Value
payload_value end = none
payload_value (field k v d) = some (obj (field k v d))

abbrev pub maybe_dict : Option Value → Result (Option Dict)
maybe_dict none = ok none
maybe_dict (some null) = ok none
maybe_dict (some (obj d)) = ok (some d)
maybe_dict (some _) = raise type_error

abbrev pub maybe_bool : Option Value → Result (Option Bool)
maybe_bool none = ok none
maybe_bool (some null) = ok none
maybe_bool (some (bool b)) = ok (some b)
maybe_bool (some _) = raise type_error

abbrev pub maybe_int : Option Value → Result (Option ℤ)
maybe_int none = ok none
maybe_int (some null) = ok none
maybe_int (some (int n)) = ok (some n)
maybe_int (some _) = raise type_error

-- d.get(k, {})
abbrev pub dict_or_end : Option Value → Result Dict
dict_or_end none = ok end
dict_or_end (some v) = as_dict v

unfoldable pub message_to_dict : PactMessage → Dict
message_to_dict m = field "id" (str m.id) (
    field "type" (str m.type) (
      field "from_agent" (str m.from_agent) (
        field "to_agent" (str m.to_agent) (
          field "refs" (arr (text_items m.refs)) (
            field "intent" (str m.intent) (
              field "alg" (str m.alg) (
                field "signature" (str m.signature) (
                  opt_field "cap_id" (text_value m.cap_id) (
                    opt_field "holder_proof" (text_value m.holder_proof) (
                      opt_field "deadline" (text_value m.deadline) (
                        opt_field "idempotency_key" (text_value m.idempotency_key) (
                          opt_field "payload" (payload_value m.payload) (
                            opt_field "status" (text_value m.status) (
                              opt_field "fault" (dict_value m.fault) (
                                opt_field "identity_doc" (dict_value m.identity_doc) (
                                  opt_field "cap_envelope" (dict_value m.cap_envelope) (
                                    opt_field "audit_context" (dict_value m.audit_context) (
                                      opt_field "stream" (bool_value m.stream) (
                                        opt_field "chunk_seq" (int_value m.chunk_seq) (
                                          opt_field "chunk_final" (bool_value m.chunk_final)
                                            end))))))))))))))))))))

unfoldable pub message_from_dict : Dict → Result PactMessage
message_from_dict d = do
  id ← need_text (get d "id")
  type ← need_text (get d "type")
  from_agent ← need_text (get d "from_agent")
  to_agent ← need_text (get d "to_agent")
  ref_items ← items_or_nil (get d "refs")
  refs ← texts_of ref_items
  intent ← text_or "" (get d "intent")
  cap_id ← maybe_text (get d "cap_id")
  holder_proof ← maybe_text (get d "holder_proof")
  deadline ← maybe_text (get d "deadline")
  idempotency_key ← maybe_text (get d "idempotency_key")
  payload ← dict_or_end (get d "payload")
  status ← maybe_text (get d "status")
  fault ← maybe_dict (get d "fault")
  identity_doc ← maybe_dict (get d "identity_doc")
  cap_envelope ← maybe_dict (get d "cap_envelope")
  audit_context ← maybe_dict (get d "audit_context")
  stream ← maybe_bool (get d "stream")
  chunk_seq ← maybe_int (get d "chunk_seq")
  chunk_final ← maybe_bool (get d "chunk_final")
  alg ← text_or alg_name (get d "alg")
  signature ← text_or "" (get d "signature")
  ok (record {
    id = id;
    type = type;
    from_agent = from_agent;
    to_agent = to_agent;
    refs = refs;
    intent = intent;
    cap_id = cap_id;
    holder_proof = holder_proof;
    deadline = deadline;
    idempotency_key = idempotency_key;
    payload = payload;
    status = status;
    fault = fault;
    stream = stream;
    chunk_seq = chunk_seq;
    chunk_final = chunk_final;
    identity_doc = identity_doc;
    cap_envelope = cap_envelope;
    audit_context = audit_context;
    alg = alg;
    signature = signature;
  })

unfoldable pub message_signable_dict : PactMessage → Dict
message_signable_dict m = without (message_to_dict m) "signature"
