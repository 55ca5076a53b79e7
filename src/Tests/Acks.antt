-- ===== src/Tests/Acks.antt =====
-- The theorems on acknowledgments and on the causal chain at concrete messages.
use pact_passport.Message.Check.{verify_message}
use pact_passport.Agent.Peers.{resolve_sender_key}
use pact_passport.Agent.Ack.Accepted.{ack_checks-Acked, Acked}
use pact_passport.Agent.Causal.Terminates.{get_causal_chain-returns}
use pact_passport.Agent.Causal.{get_causal_chain, refs_of}
use pact_passport.Agent.Ack.{find_receipt, ack_checks}
use pact_passport.Base.{contents, find, ◌↔◌, ◌≢◌, refl, none, some, ◌≡◌, [], ◌∷◌, string_eq}
use pact_passport.Errors.{ok}
use pact_passport.Json.{obj, without, get, Dict, str, arr, nil, cons, end, field}
use pact_passport.Message.{PactMessage}
use pact_passport.Store.{load_peer, list_receipts, Store, store_start}
use pact_passport.Agent.State.{next, AgentState}
use pact_passport.Tests.Agents.{light, bob, env, store, request_of_alice, loaded}

-- A receipt of a task of alice's, and an acknowledgment by carol.
abbrev receipt : Dict
receipt = field "type" (str "receipt") (
    field "agent" (str "bob") (
      field "task_ref" (str "m1")
        (field "timestamp" (str "then") (field "signature" (str "k") end))))

abbrev with_receipt : AgentState
with_receipt = record loaded {
  store = record store {
    receipts = ("then-m1.json", receipt) ∷ [];
    peers = ("carol.json", field "public_key" (str "kkk") end) ∷ [];
  };
}

abbrev ack_of_carol : PactMessage
ack_of_carol = record request_of_alice {
  type = "INITIATOR_ACK";
  from_agent = "carol";
  payload = field "task_ref" (str "m1") (field "initiator_ack_signature" (str "kkk") end);
  signature = "kkk";
}

ack_checks-Acked_example :
    (ack_checks light bob env ack_of_carol with_receipt
      ≡ (next ("m1", "kkk", receipt), with_receipt))
    ↔ Acked light bob env ack_of_carol with_receipt "m1" "kkk" receipt with_receipt
ack_checks-Acked_example =
    ack_checks-Acked light bob env ack_of_carol with_receipt "m1" "kkk" receipt with_receipt

acked :
    ack_checks light bob env ack_of_carol with_receipt ≡ (next ("m1", "kkk", receipt), with_receipt)
unfolding ack_checks get list_receipts find_receipt resolve_sender_key load_peer find verify_message
    without contents
acked = refl

-- Two messages that refer to each other.
abbrev circular : Store
circular = record store_start {
  messages =
      ("m1.json", field "id" (str "m1") (field "refs" (arr (cons (str "m2") nil)) end))
      ∷ ("m2.json", field "id" (str "m2") (field "refs" (arr (cons (str "m1") nil)) end))
      ∷ [];
}

get_causal_chain-returns_example : get_causal_chain "m1" circular ≢ none
get_causal_chain-returns_example = get_causal_chain-returns circular "m1"

-- References that are a text, and that are a dict.
text_iterated : refs_of (some (str "m1")) ≡ ok ("m" ∷ "1" ∷ [])
text_iterated = refl

dict_iterated : refs_of (some (obj (field "m1" (str "x") end))) ≡ ok ("m1" ∷ [])
dict_iterated = refl
