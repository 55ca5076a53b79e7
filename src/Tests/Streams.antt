-- ===== src/Tests/Streams.antt =====
-- The theorems on streams at a handler that yields two payloads.
use pact_passport.Base.{length, take, ◌≡◌, refl, List, [], ◌∷◌, true, false, inl, inr, arith, pos}
use pact_passport.Store.{save_message, save_receipt}
use pact_passport.Json.{Value, int, get, set}
use pact_passport.Message.Dicts.{message_to_dict}
use pact_passport.Agent.Cache.{cache_idempotent_response}
use pact_passport.Agent.Answers.{persist_receipt}
use pact_passport.Receipt.{create_receipt}
use pact_passport.Message.{PactMessage}
use pact_passport.Agent.State.{AgentState, next, reply, replay}
use pact_passport.Agent.Run.{handle_task}
use pact_passport.Agent.Stream.{build_and_sign, chunk_items, run_streaming_handler, stream_chunks}
use pact_passport.Agent.Stream.Chunks.{all_chunks, outcome_after, stream_chunks-take}
use pact_passport.Agent.Stream.Closed.{SameCache, run_streaming_handler-SameCache}
use pact_passport.Agent.Stream.Replayed.{handle_task-run_streaming_handler}
use pact_passport.Tests.Agents.{light, bob, env, loaded, passed, later, replayed_by_mallory}

abbrev counting : List Value
counting = int (pos 1) ∷ int (pos 2) ∷ []

abbrev chunks : List PactMessage
chunks = all_chunks light bob env passed false counting

abbrev streamed : AgentState
streamed = (run_streaming_handler light bob env passed counting false 3 loaded).1.1

completed :
    run_streaming_handler light bob env passed counting false 3 loaded
    ≡ (chunks, (next tt, streamed))
unfolding run_streaming_handler save_message get message_to_dict build_and_sign
    cache_idempotent_response persist_receipt save_receipt create_receipt set
completed = refl

handle_task-run_streaming_handler_example :
    (chunks ≡ all_chunks light bob env passed false counting)
    × (handle_task light bob later replayed_by_mallory streamed
        ≡ (reply (replay (chunk_items chunks)), streamed))
unfolding length
handle_task-run_streaming_handler_example =
    handle_task-run_streaming_handler light bob env later passed counting 3 replayed_by_mallory "i1"
      loaded streamed chunks refl refl (omega arith) (omega arith) completed refl (inl refl)
      (omega arith)

-- The consumer takes one chunk and closes the stream.
run_streaming_handler-SameCache_example :
    SameCache loaded (run_streaming_handler light bob env passed counting false 1 loaded).1.1
unfolding length
run_streaming_handler-SameCache_example =
    run_streaming_handler-SameCache light bob env passed counting false 1 loaded (inr (omega arith))

-- The handler raises after its two payloads, and the consumer asks until the end.
stream_chunks-take_example : stream_chunks light bob env passed true counting 2 ≡ (
  take 3 (all_chunks light bob env passed true counting),
  outcome_after light bob env passed true 3 (all_chunks light bob env passed true counting),
)
stream_chunks-take_example = stream_chunks-take light bob env passed true counting 2
