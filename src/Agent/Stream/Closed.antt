-- ===== src/Agent/Stream/Closed.antt =====
-- The idempotency cache through the end of a stream (agent.py): a stream that did not complete leaves it alone.
use pact_passport.Base.{
  ◌≡◌, ◌∙◌, refl, Bool-cases, inl, inr, ◌⊎◌, sym, subst, ℕ, zero, suc, Bool, true, false, String,
  List, [], ◌∷◌, ◌==◌, string_eq, ltb, ◌≤◌, length, arith,
}
use pact_passport.Json.{Value, Dict, get}
use pact_passport.Errors.{Result, ok, raise, ◌>>=◌}
use pact_passport.Wire.{need_text, text_or}
use pact_passport.Platform.{Platform}
use pact_passport.Message.{PactMessage}
use pact_passport.Message.Dicts.{message_to_dict}
use pact_passport.Store.{Store, save_message, save_receipt, load_idempotency_cache}
use pact_passport.Agent.State.{
  Agent, AgentState, Env, Context, Control, next, reply, fail, Step, after, save, saved, ◌>>◌,
}
use pact_passport.Agent.Answers.{persist_receipt}
use pact_passport.Agent.Stream.{
  stream_chunks, save_chunks, cache_completed, stream_receipt, close_stream, run_streaming_handler,
}
use pact_passport.Agent.Stream.Chunks.{all_chunks, outcome_after, stream_chunks-take}

-- The cache, in memory and on disk.
abbrev pub SameCache : AgentState → AgentState → Type 0
SameCache s t =
    (t.cache ≡ s.cache)
    × (load_idempotency_cache t.store ≡ load_idempotency_cache s.store)
    × (t.state_loaded ≡ s.state_loaded)

SameCache-refl : (s : AgentState) → SameCache s s
SameCache-refl s = (refl, refl, refl)

pub SameCache-trans : (s t u : AgentState) → SameCache s t → SameCache t u → SameCache s u
SameCache-trans s t u h k = (k.0 ∙ h.0, k.1 ∙ h.1, k.2 ∙ h.2)

-- A step that leaves the cache alone, whatever comes of it.
abbrev pub Spares {ℓ} : {A : Type ℓ} → Step A → Type 0
Spares m = (s : AgentState) → SameCache s (m s).1

after-SameCache {ℓ κ} :
    {A : Type ℓ} {B : Type κ} (r : Control A × AgentState) (f : A → Step B) (s : AgentState)
    → SameCache s r.1
    → ((x : A) → Spares (f x))
    → SameCache s (after r f).1
after-SameCache (next x, t) f s h k = SameCache-trans s t (f x t).1 h (k x t)
after-SameCache (reply x, t) f s h k = h
after-SameCache (fail x, t) f s h k = h

pub then-Spares {ℓ κ} :
    {A : Type ℓ} {B : Type κ} (m : Step A) (k : Step B) → Spares m → Spares k → Spares (m >> k)
then-Spares m k h0 h1 s = after-SameCache (m s) (λ _. k) s (h0 s) (λ _. h1)

saved-SameCache :
    (r : Result Store) (s : AgentState)
    → ((t : Store) → r ≡ ok t → load_idempotency_cache t ≡ load_idempotency_cache s.store)
    → SameCache s (saved r s).1
saved-SameCache (ok t) s h = (refl, h t refl, refl)
saved-SameCache (raise err) s h = SameCache-refl s

-- The file of the cache where a store is computed from a result.
bind-cache_file {ℓ} :
    {A : Type ℓ} (s : Store) (r : Result A) (f : A → Result Store)
    → ((x : A) (t : Store) → f x ≡ ok t → load_idempotency_cache t ≡ load_idempotency_cache s)
    → (t : Store) → (r >>= f) ≡ ok t
    → load_idempotency_cache t ≡ load_idempotency_cache s
bind-cache_file s (ok x) f h t k = h x t k
bind-cache_file s (raise err) f h t k = cc

ok_injective : {s t : Store} → Path (Result Store) (ok s) (ok t) → s ≡ t
ok_injective h = ground (arith, h)

ok-cache_file :
    (s t u : Store)
    → load_idempotency_cache t ≡ load_idempotency_cache s
    → Path (Result Store) (ok t) (ok u)
    → load_idempotency_cache u ≡ load_idempotency_cache s
ok-cache_file s t u h k =
    subst (λ x. load_idempotency_cache x ≡ load_idempotency_cache s) (ok_injective k) h

pub save_message-Spares : (m : Dict) → Spares (save (save_message m))
unfolding save_message load_idempotency_cache
save_message-Spares m s =
    saved-SameCache (save_message m s.store) s
      (bind-cache_file s.store (need_text (get m "id")) _ (λ id t. ok-cache_file s.store _ t refl))

save_receipt-Spares : (d : Dict) → Spares (save (save_receipt d))
unfolding save_receipt load_idempotency_cache
save_receipt-Spares d s = saved-SameCache (save_receipt d s.store) s (
    bind-cache_file s.store (text_or "unknown" (get d "timestamp")) _ (λ timestamp.
      bind-cache_file s.store (text_or "unknown" (get d "task_ref")) _
        (λ task_ref t. ok-cache_file s.store _ t refl)))

module _ (p : Platform) (a : Agent) (e : Env) (ctx : Context) where
  pub persist_receipt-Spares : (d : Dict) → Spares (persist_receipt p a e d)
  unfolding persist_receipt
  persist_receipt-Spares d s = elim (Bool-cases a.ablations.receipt) [
    | inl on ↦ simp on (SameCache-refl s)
    | inr off ↦ simp off (save_receipt-Spares d s)
  ]

  pub save_chunks-Spares : (chunks : List PactMessage) → Spares (save_chunks p a e ctx chunks)
  save_chunks-Spares [] s = SameCache-refl s
  save_chunks-Spares (c ∷ cs) s =
      then-Spares (save (save_message (message_to_dict c))) (save_chunks p a e ctx cs)
        (save_message-Spares (message_to_dict c)) (save_chunks-Spares cs) s

  cache_completed-Spares :
      (chunks : List PactMessage) (outcome : String)
      → (outcome == "completed") ≡ false
      → Spares (cache_completed p a e ctx chunks outcome)
  cache_completed-Spares chunks outcome other s = simp other (SameCache-refl s)

  close_stream-Spares :
      (chunks : List PactMessage) (outcome : String)
      → (outcome == "completed") ≡ false
      → Spares (close_stream p a e ctx chunks outcome)
  unfolding close_stream
  close_stream-Spares chunks outcome other =
      then-Spares (save (save_message (message_to_dict ctx.msg))) _
        (save_message-Spares (message_to_dict ctx.msg))
        (then-Spares (save_chunks p a e ctx chunks) _ (save_chunks-Spares chunks) (
          then-Spares (cache_completed p a e ctx chunks outcome) _
            (cache_completed-Spares chunks outcome other)
            (persist_receipt-Spares (stream_receipt p a e ctx chunks outcome))))

  outcome_after-incomplete :
      (raises : Bool) (n : ℕ) (chunks : List PactMessage)
      → (raises ≡ true) ⊎ (n ≤ length chunks)
      → (outcome_after p a e ctx raises n chunks == "completed") ≡ false
  outcome_after-incomplete true n chunks h = elim (Bool-cases (ltb (length chunks) n)) [
    | inl late ↦ simp late refl
    | inr early ↦ simp early refl
  ]
  outcome_after-incomplete false n chunks (inl h) = cc
  outcome_after-incomplete false n chunks (inr h) =
      let early : ltb (length chunks) n ≡ false = ground (arith, h) in simp early refl

  -- A stream whose handler raised, or that the consumer closed before it had asked once more than there are
  -- chunks, leaves the idempotency cache as it was, in memory and on disk.
  pub run_streaming_handler-SameCache :
      (payloads : List Value) (raises : Bool) (n : ℕ) (s : AgentState)
      → (raises ≡ true) ⊎ (n ≤ length (all_chunks p a e ctx raises payloads))
      → SameCache s (run_streaming_handler p a e ctx payloads raises n s).1.1
  unfolding run_streaming_handler
  run_streaming_handler-SameCache payloads raises zero s h = SameCache-refl s
  run_streaming_handler-SameCache payloads raises (suc n) s h =
      let r = stream_chunks p a e ctx raises payloads n in
      let incomplete =
        subst (λ (x : List PactMessage × String). (x.1 == "completed") ≡ false)
          (sym (stream_chunks-take p a e ctx raises payloads n))
          (outcome_after-incomplete raises (suc n) (all_chunks p a e ctx raises payloads) h) in
      close_stream-Spares r.0 r.1 incomplete s
