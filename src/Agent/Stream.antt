-- ===== src/Agent/Stream.antt =====
-- _run_streaming_handler of agent.py: the chunks of a handler that is a generator, for a consumer that draws
-- some of them and then closes the stream, and what is kept when the stream comes to its end. The moment
-- of Env is here that of the end, and its identifiers are those of the chunks.
pub mod Chunks
pub mod Closed
pub mod Replayed
use pact_passport.Base.{
  ℕ, zero, suc, pos, Bool, true, false, String, Option, none, some, List, [], ◌∷◌, ◌==◌, string_eq,
  if◌then◌else◌,
}
use pact_passport.Json.{Value, Items, Dict, arr, obj, nil, cons, end}
use pact_passport.Platform.{Platform}
use pact_passport.Message.{PactMessage}
use pact_passport.Message.Dicts.{message_to_dict}
use pact_passport.Message.Build.{build_res_chunk}
use pact_passport.Receipt.{create_receipt}
use pact_passport.Store.{save_message}
use pact_passport.Agent.State.{
  Agent, AgentState, Env, Context, Control, next, Step, pure, save, ◌>>◌,
}
use pact_passport.Agent.Cache.{cache_idempotent_response}
use pact_passport.Agent.Answers.{fault_dict, persist_receipt, visa_extra}
use pact_passport.Agent.Task.{as_payload}
use pact_passport.Agent.Run.{stored}

-- Where the generator is suspended: at a chunk that is not final, with the next chunk's number, the payload
-- that is held back and what the handler has still to yield; at the final chunk; or at the error chunk.
pub data Paused : Type 0 where
  holding : ℕ → Dict → List Value → Paused
  at_final : Paused
  at_error : Paused

-- `{}` where the stream is empty
abbrev pub or_empty_dict : Option Dict → Dict
or_empty_dict none = end
or_empty_dict (some d) = d

abbrev pub ids_of : List PactMessage → List String
ids_of [] = []
ids_of (c ∷ cs) = c.id ∷ ids_of cs

abbrev pub chunk_items : List PactMessage → Items
chunk_items [] = nil
chunk_items (c ∷ cs) = cons (obj (message_to_dict c)) (chunk_items cs)

module _ (p : Platform) (a : Agent) (e : Env) (ctx : Context) where
  -- _build_and_sign, `seq` being the number of the chunk
  unfoldable pub build_and_sign : ℕ → Dict → Bool → PactMessage
  build_and_sign seq payload final =
      build_res_chunk p (e.fresh seq) a.key a.agent_id ctx.msg (pos seq) final (some payload) "ok"
        none

  unfoldable pub err_chunk : ℕ → PactMessage
  err_chunk seq =
      build_res_chunk p (e.fresh seq) a.key a.agent_id ctx.msg (pos seq) true (some end) "error"
        (some (fault_dict p a e "handler_error"))

  -- The loop up to its next yield: the chunk that is emitted, and where the generator is suspended.
  unfoldable pub resume : Bool → ℕ → Option Dict → List Value → PactMessage × Paused
  resume raises seq none (v ∷ vs) = resume raises seq (some (as_payload v)) vs
  resume raises seq (some held) (v ∷ vs) =
      (build_and_sign seq held false, holding (suc seq) (as_payload v) vs)
  resume raises seq last [] =
      if raises
      then (err_chunk seq, at_error)
      else (build_and_sign seq (or_empty_dict last) true, at_final)

  -- The chunks that a suspended generator still emits, and its outcome, where the consumer asks n more times
  -- and then closes it: a GeneratorExit at the suspended yield leaves the outcome "cancelled".
  unfoldable pub drawn : Bool → ℕ → Paused → List PactMessage × String
  unfolding resume
  drawn raises zero state = ([], "cancelled")
  drawn raises (suc n) at_final = ([], "completed")
  drawn raises (suc n) at_error = ([], "failed")
  drawn raises (suc n) (holding seq held vs) =
      let r = resume raises seq (some held) vs in
      let rest = drawn raises n r.1 in (r.0 ∷ rest.0, rest.1)

  -- The same from the start, where the consumer asks once and then n more times.
  unfoldable pub stream_chunks : Bool → List Value → ℕ → List PactMessage × String
  unfolding drawn
  stream_chunks raises payloads n =
      let r = resume raises 0 none payloads in
      let rest = drawn raises n r.1 in (r.0 ∷ rest.0, rest.1)

  abbrev pub save_chunks : List PactMessage → Step (Unit {0})
  save_chunks [] = pure tt
  save_chunks (c ∷ cs) = do save (save_message (message_to_dict c)); save_chunks cs

  abbrev pub cache_completed : List PactMessage → String → Step (Unit {0})
  cache_completed chunks outcome s =
      if outcome == "completed"
      then stored s (cache_idempotent_response p a e.now ctx.msg (arr (chunk_items chunks)) s)
      else pure tt s

  abbrev pub stream_receipt : List PactMessage → String → Dict
  stream_receipt chunks outcome =
      create_receipt p e.now a.key a.agent_id ctx.msg.id (ctx.msg.id ∷ ids_of chunks) outcome
        (visa_extra ctx.cap_token end)

  -- The `finally` block.
  unfoldable pub close_stream : List PactMessage → String → Step (Unit {0})
  close_stream chunks outcome = do
    save (save_message (message_to_dict ctx.msg))
    save_chunks chunks
    cache_completed chunks outcome
    persist_receipt p a e (stream_receipt chunks outcome)

  -- The whole stream, for a consumer that asks n times and then closes it: a generator that is closed before
  -- it was ever asked has not started, and does nothing.
  unfoldable pub run_streaming_handler :
      List Value → Bool → ℕ → AgentState → List PactMessage × (Control (Unit {0}) × AgentState)
  unfolding stream_chunks close_stream
  run_streaming_handler payloads raises zero s = ([], (next tt, s))
  run_streaming_handler payloads raises (suc n) s =
      let r = stream_chunks raises payloads n in (r.0, close_stream r.0 r.1 s)
