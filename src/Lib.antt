-- ===== src/Lib.antt =====
-- PACT passport: the cryptographic core of `src/pact_passport/`, which lets agents issue each other
-- capabilities, delegate them, call each other under them and keep signed receipts.
--
-- The parts and where they are modelled:
--   - Json (canonical bytes: `src/pact_passport/_canonical.py`): JSON values, Python's operations on
--     dicts, and the bytes that every signature is over, key by key and escape by escape;
--   - Capability (`src/pact_passport/capability.py`): the token and its dict forms (Dicts), issue_capability
--     and attenuate (Issue), the sets of caveats of the chain walk (Keys), and verify_capability (Verify),
--     each early return of which is a value of the type Check;
--   - Message (`src/pact_passport/message.py`): the message and its dict forms (Dicts), build_req, build_res
--     and build_res_chunk (Build), the verifiers (Check) and the domain-separated payloads;
--   - Receipt (`src/pact_passport/receipt.py`) and Audit (`src/pact_passport/audit.py`): receipts, the
--     acknowledgment that makes one bilateral, and the audits of requests and receipts, which call the
--     verifiers of Message and Receipt;
--   - Policy (`src/pact_passport/policy.py`): the registry of predicates, the factories of Simple caveats with
--     their checks (Factories), and evaluate_caveats (Evaluate);
--   - Identity (`src/pact_passport/identity.py`): an agent's keys and its log of key events: create, rotate and
--     verify_event_log (Log), the log of one name being the state that the store keeps: create adds to the log
--     that the name has;
--   - Visa (`src/pact_passport/visa.py`): the tracker of issuances, the default policy, the visa and the proof of
--     its use, with the guarded step of the visa request of `src/pact_passport/agent.py`, one step after another
--     (Rate), since the code holds the lock of the peer's network meanwhile;
--   - Store (`src/pact_passport/store.py`): the files of one agent, a list for each directory and each state
--     file, with the names that are made from identifiers;
--   - Agent (`src/pact_passport/agent.py`): _dispatch (Dispatch) and _handle_task, a chain of steps on the
--     agent's state, each of which goes on, answers or raises (State). Task and Capability have the steps, Run
--     puts them together, Answers has the error responses and receipts, Peers the keys of the senders, Cache
--     the idempotency cache, Stream _run_streaming_handler. Visas is _handle_visa_request over the step of
--     Visa, Ack _handle_initiator_ack, Grants grant and revoke, Causal get_causal_chain. What lets a request
--     through is put together from Senders, Granted, Counted, Passed and Allowed in Authorized; Tracks, Kept,
--     KeptCapability and Limit carry the counts of invocations through the steps to Invocations;
--   - Errors (`src/pact_passport/errors.py`): the exceptions as values, and the fault codes;
--   - Base, Wire: shared helpers, and the typed reading of dict fields.
--
-- Platform is what the program takes from elsewhere: `src/pact_passport/crypto.py` over PyNaCl and hashlib,
-- base64 and datetime. IsLawful states what the code relies on of them, IsBinding the ideal of a signature
-- scheme; Tests/Toy has one instance of both. A fresh uuid and the current moment are arguments.
--
-- Bounds: an int is unbounded, as in Python. A moment is a number of microseconds since the start of the
-- year 1, and a deadline outside the years 1 to 9999 raises OverflowError. The decimal digits of an int
-- have a fuel of one round more than its size, which is at least the number of its digits. The walk of
-- get_causal_chain has one of two rounds more than there are references in the stored messages, since a
-- message is expanded once. Every other loop is structural.
--
-- Not modelled: floats in JSON; log lines and deprecation warnings. The text of an error's detail is a
-- function of its code. The dataclasses do not check the types they declare: here a field of another type
-- raises TypeError when from_dict reads it, so that what the later code raises on such a field (an
-- AttributeError or a TypeError of .encode() or b64decode, say) is not modelled, and a theorem about a
-- token or a message is about one whose fields have the declared types. Of a stored message's references,
-- which may be any iterable, an item that is no text raises TypeError. A dispatch reads the clock once, and
-- requests come one after another. Files are read and written without a failure, and no identifier holds a
-- path separator. Left out are ask, serving and discovery, the command line and the transports, which are
-- input and output around the modelled code.
pub mod Base
pub mod Json
pub mod Errors
pub mod Platform
pub mod Wire
pub mod Agent
pub mod Audit
pub mod Capability
pub mod Identity
pub mod Message
pub mod Policy
pub mod Receipt
pub mod Store
pub mod Tests
pub mod Visa
