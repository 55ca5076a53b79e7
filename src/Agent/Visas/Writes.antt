-- ===== src/Agent/Visas/Writes.antt =====
-- The messages and receipts that agent.py makes itself are saved without a failure, beside the capabilities.
use pact_passport.Base.{
  write_file, ◌≡◌, ◌≢◌, ◌∙◌, refl, ap, ℕ, Bool-cases, inl, inr, String, Option, some, List,
  string_eq, eq_iff, arith,
}
use pact_passport.Json.{Dict, str, get}
use pact_passport.Errors.{Result, ok}
use pact_passport.Platform.{Platform, Bytes}
use pact_passport.Message.{PactMessage}
use pact_passport.Message.Dicts.{message_to_dict}
use pact_passport.Receipt.{create_receipt, receipt_fields}
use pact_passport.Receipt.Laws.{create_receipt-reserved}
use pact_passport.Store.{Store, save_message, save_receipt, receipt_file}
use pact_passport.Agent.State.{
  Agent, AgentState, Env, Control, next, Reply, reply, Step, after, answer, saved, save, ◌>>◌,
}
use pact_passport.Agent.Answers.{persist_receipt}

-- A step comes out as c, and leaves the capabilities alone.
abbrev pub Writes {ℓ} : {A : Type ℓ} → Step A → Control A → AgentState → Type ℓ
Writes m c s = (t : AgentState) × (m s ≡ (c, t)) × (t.store.capabilities ≡ s.store.capabilities)

pub then-Writes {ℓ κ} :
    {A : Type ℓ} {B : Type κ} (m : Step A) (k : Step B) (x : A) (c : Control B) (s : AgentState)
    → Writes m (next x) s
    → ((t : AgentState) → Writes k c t)
    → Writes (m >> k) c s
then-Writes m k x c s (t, first, keeps) rest =
    let (u, second, still) = rest t in (u, ap (λ r. after r (λ _. k)) first ∙ second, still ∙ keeps)

pub answer-Writes {ℓ} :
    {A : Type ℓ} (r : Reply) (s : AgentState) → Writes {A = A} (answer r) (reply r) s
answer-Writes r s = (s, refl, refl)

saved-Writes :
    (f : Store → Result Store) (s : AgentState)
    → (t : Store) × (f s.store ≡ ok t) × (t.capabilities ≡ s.store.capabilities)
    → Writes (save f) (next tt) s
saved-Writes f s (t, writes, keeps) = (record s { store = t }, ap (λ r. saved r s) writes, keeps)

pub save_message-Writes :
    (m : PactMessage) (s : AgentState)
    → Writes (save (save_message (message_to_dict m))) (next tt) s
unfolding save_message message_to_dict get
save_message-Writes m s = saved-Writes (save_message (message_to_dict m)) s (_, refl, refl)

save_receipt-Writes :
    (d : Dict) (timestamp task_ref : String) (s : AgentState)
    → get d "timestamp" ≡ some (str timestamp)
    → get d "task_ref" ≡ some (str task_ref)
    → Writes (save (save_receipt d)) (next tt) s
unfolding save_receipt
save_receipt-Writes d timestamp task_ref s stamped referring = saved-Writes (save_receipt d) s (
  record s.store { receipts = write_file s.store.receipts (receipt_file timestamp task_ref) d },
  rw (stamped, referring) refl,
  refl,
)

timestamp_other : ◌≢◌ {A = String} "timestamp" "signature"
timestamp_other h = ground (arith, h, eq_iff "timestamp" "signature")

task_ref_other : ◌≢◌ {A = String} "task_ref" "signature"
task_ref_other h = ground (arith, h, eq_iff "task_ref" "signature")

module _ (p : Platform) (a : Agent) (e : Env) where
  -- A receipt that create_receipt makes is saved, if receipts are kept at all.
  pub persist_receipt-Writes :
      (now : ℕ) (key : Bytes) (agent_id task_ref : String) (refs : List String) (outcome : String)
      (extra : Option Dict) (s : AgentState)
      → Writes
          (persist_receipt p a e (create_receipt p now key agent_id task_ref refs outcome extra))
          (next tt)
          s
  unfolding persist_receipt receipt_fields get
  persist_receipt-Writes now key agent_id task_ref refs outcome extra s =
      let d = create_receipt p now key agent_id task_ref refs outcome extra in
      elim (Bool-cases a.ablations.receipt) [
        | inl on ↦ simp on (s, refl, refl)
        | inr off ↦ simp off (
            save_receipt-Writes d (p.isoformat now) task_ref s
              (create_receipt-reserved p now key agent_id task_ref refs outcome extra "timestamp" _
                timestamp_other refl)
              (create_receipt-reserved p now key agent_id task_ref refs outcome extra "task_ref" _
                task_ref_other refl))
      ]
