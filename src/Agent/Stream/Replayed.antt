-- ===== src/Agent/Stream/Replayed.antt =====
-- A request with the key of a stream that has completed (agent.py).
use pact_passport.Base.{
  ◌≡◌, ◌∙◌, refl, sym, ap, subst, ℕ, zero, suc, true, false, String, some, List, [], ◌∷◌, ltb, ◌<◌,
  ◌≤◌, ◌+◌, length, take, find, arith,
}
use pact_passport.Json.{Value, arr}
use pact_passport.Platform.{Platform}
use pact_passport.Wire.{truthy}
use pact_passport.Message.{PactMessage}
use pact_passport.Message.Dicts.{message_to_dict}
use pact_passport.Store.{save_message}
use pact_passport.Agent.Deadline.{InTime}
use pact_passport.Agent.State.{
  Agent, AgentState, Env, Context, Control, next, reply, replay, after-eq-next, save,
}
use pact_passport.Agent.Cache.Kept.{cache_idempotent_response-Cached}
use pact_passport.Agent.Run.{handle_task}
use pact_passport.Agent.Replay.{handle_task-replay, stored-eq-next}
use pact_passport.Agent.Stream.{
  chunk_items, stream_chunks, save_chunks, cache_completed, stream_receipt, close_stream,
  run_streaming_handler,
}
use pact_passport.Agent.Stream.Chunks.{all_chunks, outcome_after, stream_chunks-take}
use pact_passport.Agent.Stream.Closed.{
  SameCache, SameCache-trans, save_message-Spares, save_chunks-Spares, persist_receipt-Spares,
}

take-all {ℓ} : {A : Type ℓ} (n : ℕ) (xs : List A) → length xs ≤ n → take n xs ≡ xs
unfolding take length
take-all zero [] h = refl
take-all zero (x ∷ xs) h = absurd (omega (arith, h))
take-all (suc n) [] h = refl
take-all (suc n) (x ∷ xs) h = ap (λ ys. x ∷ ys) (take-all n xs (omega (arith, h)))

module _ (p : Platform) (a : Agent) (e : Env) (ctx : Context) where
  -- A consumer that asks once more than there are chunks.
  stream_chunks-completed :
      (payloads : List Value) (n : ℕ)
      → length (all_chunks p a e ctx false payloads) < suc n
      → stream_chunks p a e ctx false payloads n
        ≡ (all_chunks p a e ctx false payloads, "completed")
  stream_chunks-completed payloads n h =
      let all = all_chunks p a e ctx false payloads in
      let late : ltb (length all) (suc n) ≡ true = ground (arith, h) in
      stream_chunks-take p a e ctx false payloads n
      ∙ ap (λ (x : List PactMessage). (x, outcome_after p a e ctx false (suc n) all))
          (take-all (suc n) all (omega (arith, h)))
      ∙ simp late refl

  -- What is in the cache once a stream has completed.
  close_stream-kept :
      (chunks : List PactMessage) (k : String) (s t : AgentState)
      → truthy ctx.msg.idempotency_key ≡ some k
      → length s.cache < a.idempotency_cache_max
      → close_stream p a e ctx chunks "completed" s ≡ (next tt, t)
      → (exp : ℕ) × (find t.cache k ≡ some (arr (chunk_items chunks), exp))
        × (e.now + 10000000 ≤ exp)
        × (t.state_loaded ≡ s.state_loaded)
  unfolding close_stream
  close_stream-kept chunks k s t named room h =
      let (_, s1, h1, k1) = after-eq-next (save (save_message (message_to_dict ctx.msg)) s) _ h in
      let (_, s2, h2, k2) = after-eq-next (save_chunks p a e ctx chunks s1) _ k1 in
      let (_, s3, h3, k3) = after-eq-next (cache_completed p a e ctx chunks "completed" s2) _ k2 in
      let first =
        subst (λ (x : Control (Unit {0}) × AgentState). SameCache s x.1) h1
          (save_message-Spares (message_to_dict ctx.msg) s) in
      let second =
        subst (λ (x : Control (Unit {0}) × AgentState). SameCache s1 x.1) h2
          (save_chunks-Spares p a e ctx chunks s1) in
      let last =
        subst (λ (x : Control (Unit {0}) × AgentState). SameCache s3 x.1) k3
          (persist_receipt-Spares p a e ctx (stream_receipt p a e ctx chunks "completed") s3) in
      let same = SameCache-trans s s1 s2 first second in
      let c =
        cache_idempotent_response-Cached p a e.now ctx.msg k (arr (chunk_items chunks)) s2 s3 named
          (stored-eq-next s2 s3 _ h3) in
      let (exp, hit, late) =
        c.kept (subst (λ x. length x < a.idempotency_cache_max) (sym same.0) room) in
      (exp, ap (λ x. find x k) last.0 ∙ hit, late, last.2 ∙ c.loaded ∙ same.2)

module _ (p : Platform) (a : Agent) (e later : Env) (ctx : Context) where
  -- When a stream under a key is drawn to its end, whose handler did not raise, with a cache that was not
  -- full, the consumer has got every chunk, and the next request, if it has that key and a deadline in time
  -- and comes less than ten seconds later, gets the same chunks again and changes nothing.
  pub handle_task-run_streaming_handler :
      (payloads : List Value) (n : ℕ) (m' : PactMessage) (k : String) (s t : AgentState)
      (chunks : List PactMessage)
      → s.state_loaded ≡ true
      → truthy ctx.msg.idempotency_key ≡ some k
      → length s.cache < a.idempotency_cache_max
      → length (all_chunks p a e ctx false payloads) < n
      → run_streaming_handler p a e ctx payloads false n s ≡ (chunks, (next tt, t))
      → truthy m'.idempotency_key ≡ some k
      → InTime p a.max_deadline_seconds later.now (truthy m'.deadline)
      → later.now < e.now + 10000000
      → (chunks ≡ all_chunks p a e ctx false payloads)
        × (handle_task p a later m' t ≡ (reply (replay (chunk_items chunks)), t))
  unfolding run_streaming_handler
  handle_task-run_streaming_handler payloads zero m' k s t chunks loaded named room enough run
        named' in_time soon =
      absurd (omega (arith, enough))
  handle_task-run_streaming_handler payloads (suc n) m' k s t chunks loaded named room enough run
        named' in_time soon =
      let all = all_chunks p a e ctx false payloads in
      let drawn =
        subst
          (λ (x : List PactMessage × String).
            ◌≡◌ {A = List PactMessage × (Control (Unit {0}) × AgentState)}
              (x.0, close_stream p a e ctx x.0 x.1 s) (chunks, (next tt, t)))
          (stream_chunks-completed p a e ctx payloads n enough) run in
      let same : chunks ≡ all = sym (ap (λ x. x.0) drawn) in
      let (exp, hit, late, stays) =
        close_stream-kept p a e ctx all k s t named room (ap (λ x. x.1) drawn) in
      (
        same,
        handle_task-replay p a later m' k (arr (chunk_items all)) exp t (stays ∙ loaded) in_time
              named' hit (omega (arith, late, soon))
            ∙ ap (λ x. (reply (replay (chunk_items x)), t)) (sym same),
      )
