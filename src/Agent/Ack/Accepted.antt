-- ===== src/Agent/Ack/Accepted.antt =====
-- When an acknowledgment is merged into a receipt, and what the receipt is then worth.
use pact_passport.Base.{◌≡◌, ◌↔◌, sym, ap, subst, true, false, String, some}
use pact_passport.Json.{Dict, str, get, without}
use pact_passport.Json.Dicts.{get-set, without-set}
use pact_passport.Json.Canonical.{canonical_json}
use pact_passport.Platform.{Platform, Bytes}
use pact_passport.Message.{PactMessage}
use pact_passport.Message.Build.{equals_text}
use pact_passport.Message.Check.{verify_message, verify_text}
use pact_passport.Audit.Receipts.{audit_receipt}
use pact_passport.Audit.Receipts.Laws.{audit_receipt-passed}
use pact_passport.Receipt.{verify_receipt, verify_value}
use pact_passport.Store.{Store, list_receipts}
use pact_passport.Agent.State.{Agent, AgentState, Env, context_start, next, after-eq-next}
use pact_passport.Agent.Peers.{sender_key, resolve_sender_key}
use pact_passport.Agent.Ack.{
  filled_text, find_receipt, ack_sender, with_sender, ack_checks, bilateral,
}
use pact_passport.Agent.Ack.Passed.{ack_verified-eq-next, with_sender-eq-next}

module _ (p : Platform) (a : Agent) (e : Env) where
  -- What has to hold: the message is signed under the key of its sender, known or met for the first
  -- time; it names a task and a signature; the first receipt of that task does not carry this very
  -- signature; and the signature is the sender's, over the receipt without its acknowledgment.
  pub record Acked (m : PactMessage) (s : AgentState) (task_ref sig : String) (receipt : Dict)
      (u : AgentState) : Type 0 where
    pub key : Bytes
    pub learned : Store
    pub sender :
        sender_key p m (resolve_sender_key p m.from_agent s.store) s.store ≡ (some key, learned)
    pub signed : verify_message p m key ≡ true
    pub task : filled_text (get m.payload "task_ref") ≡ some task_ref
    pub ack : filled_text (get m.payload "initiator_ack_signature") ≡ some sig
    pub found : find_receipt task_ref (list_receipts learned) ≡ some receipt
    pub fresh : equals_text (get receipt "initiator_ack_signature") sig ≡ false
    pub verified :
        verify_text p
          (canonical_json (without receipt "initiator_ack_signature"))
          (p.b64decode sig)
          key
        ≡ true
    pub stays : u ≡ record s { store = learned }

  accepted :
      (m : PactMessage) (s : AgentState) (task_ref sig : String) (receipt : Dict) (u : AgentState)
      → Acked m s task_ref sig receipt u
      → ack_checks p a e m s ≡ (next (task_ref, sig, receipt), u)
  unfolding ack_checks
  accepted m s task_ref sig receipt u c =
      simp (c.sender, c.signed, c.task, c.ack, c.found, c.fresh, c.verified)
        (ap (λ x. (next (task_ref, sig, receipt), x)) (sym c.stays))

  acked :
      (m : PactMessage) (s : AgentState) (r : String × String × Dict) (u : AgentState)
      → ack_checks p a e m s ≡ (next r, u)
      → Acked m s r.0 r.1 r.2 u
  unfolding ack_checks ack_sender
  acked m s r u h =
      let (key, s1, first, h1) =
        after-eq-next (ack_sender p a e (context_start m) s) (with_sender p a e (context_start m))
          h in
      let (sender, signed, stays) = ack_verified-eq-next p a e (context_start m) _ s first in
      let (task_ref, sig, receipt, task, ack, found, closes, parts, last) =
        with_sender-eq-next p a e (context_start m) key s1 h1 in
      subst (λ (x : String × String × Dict). Acked m s x.0 x.1 x.2 u) parts
        (subst (λ x. Acked m s task_ref sig receipt x) last
          (record {
            key = key;
            learned = s1.store;
            sender = sender;
            signed = signed;
            task = task;
            ack = ack;
            found = found;
            fresh = closes.0;
            verified = closes.1;
            stays = stays;
          }))

  -- An acknowledgment gets through to the merge exactly if it is signed under the key that is known for its
  -- sender or that it brings along itself, its payload names a task and an acknowledgment by texts that are
  -- not empty, the first receipt stored for the task does not hold this acknowledgment yet, and the
  -- acknowledgment verifies under the sender's key over the receipt without one. Nothing is asked about
  -- the agent that sent the task.
  pub ack_checks-Acked :
      (m : PactMessage) (s : AgentState) (task_ref sig : String) (receipt : Dict) (u : AgentState)
      → (ack_checks p a e m s ≡ (next (task_ref, sig, receipt), u))
        ↔ Acked m s task_ref sig receipt u
  ack_checks-Acked m s task_ref sig receipt u =
      (acked m s (task_ref, sig, receipt) u, accepted m s task_ref sig receipt u)

  -- A receipt that verified under the receiver's key without its acknowledgment passes the audit, once
  -- an acknowledgment has been merged into it, under the receiver's key and that of whoever sent the
  -- acknowledgment.
  pub ack_checks-audit_receipt :
      (m : PactMessage) (s : AgentState) (task_ref sig : String) (receipt : Dict) (u : AgentState)
      (receiver_key : Bytes)
      → ack_checks p a e m s ≡ (next (task_ref, sig, receipt), u)
      → verify_receipt p (without receipt "initiator_ack_signature") receiver_key ≡ true
      → (key : Bytes) × (verify_message p m key ≡ true)
        × ((audit_receipt p (bilateral sig receipt) receiver_key (some key)).passed ≡ true)
  ack_checks-audit_receipt m s task_ref sig receipt u receiver_key h valid =
      let c = acked m s (task_ref, sig, receipt) u h in
      let same = without-set receipt "initiator_ack_signature" (str sig) in
      (
        c.key,
        c.signed,
        (audit_receipt-passed p (bilateral sig receipt) receiver_key c.key).1 (
          subst (λ x. verify_receipt p x receiver_key ≡ true) (sym same) valid,
          (
            str sig,
            get-set receipt "initiator_ack_signature" "initiator_ack_signature" (str sig),
            subst (λ x. verify_value p (canonical_json x) (str sig) c.key ≡ true) (sym same)
                c.verified,
          ),
        ),
      )
