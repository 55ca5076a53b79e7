-- ===== src/Agent/Stream/Chunks.antt =====
-- What the consumer of a stream gets, over every number of times that it asks (agent.py).
use pact_passport.Base.{
  ◌≡◌, ◌∙◌, refl, ap, ℕ, zero, suc, Bool, true, false, String, Option, none, some, List, [], ◌∷◌,
  if◌then◌else◌, ltb, length, take, map, arith,
}
use pact_passport.Json.{Value, Dict, end}
use pact_passport.Platform.{Platform}
use pact_passport.Message.{PactMessage}
use pact_passport.Agent.State.{Agent, Env, Context}
use pact_passport.Agent.Task.{as_payload}
use pact_passport.Agent.Stream.{
  or_empty_dict, build_and_sign, err_chunk, resume, drawn, stream_chunks, Paused,
}

ltb-suc : (m n : ℕ) → ltb m n ≡ ltb (suc m) (suc n)
ltb-suc m n = ground arith

ltb_one : (n : ℕ) → ltb 1 (suc (suc n)) ≡ true
ltb_one n = ground arith

ltb-suc_one : (n : ℕ) → ltb (suc n) 1 ≡ false
ltb-suc_one n = ground arith

module _ (p : Platform) (a : Agent) (e : Env) (ctx : Context) (raises : Bool) where
  -- The last chunk of a stream whose last payload is d, which is lost where the handler raises.
  abbrev pub closing : ℕ → Dict → PactMessage
  closing seq d = if raises then err_chunk p a e ctx seq else build_and_sign p a e ctx seq d true

  -- A stream from its chunk number seq on: one chunk for each payload, the last one final.
  abbrev pub chunks_from : ℕ → Dict → List Dict → List PactMessage
  chunks_from seq d [] = closing seq d ∷ []
  chunks_from seq d (d' ∷ ds) = build_and_sign p a e ctx seq d false ∷ chunks_from (suc seq) d' ds

  -- An empty stream has one chunk with an empty payload.
  abbrev pub all_chunks : List Value → List PactMessage
  all_chunks [] = chunks_from 0 end []
  all_chunks (v ∷ vs) = chunks_from 0 (as_payload v) (map as_payload vs)

  abbrev pub ended : String
  ended = if raises then "failed" else "completed"

  -- The outcome for a consumer that asks n times.
  abbrev pub outcome_after : ℕ → List PactMessage → String
  outcome_after n chunks = if ltb (length chunks) n then ended else "cancelled"

  abbrev pub Cut : ℕ → List PactMessage → List PactMessage × String → Type 0
  Cut n chunks r = r ≡ (take n chunks, outcome_after n chunks)

  -- One more chunk in front, and one more question.
  Cut-next :
      (n : ℕ) (c : PactMessage) (chunks : List PactMessage) (r : List PactMessage × String)
      → Cut n chunks r
      → Cut (suc n) (c ∷ chunks) (c ∷ r.0, r.1)
  unfolding take length
  Cut-next n c chunks r h =
      ap (λ (x : List PactMessage × String). (c ∷ x.0, x.1)) h
      ∙ ap (λ b. (c ∷ take n chunks, if b then ended else "cancelled")) (ltb-suc (length chunks) n)

module _ (p : Platform) (a : Agent) (e : Env) (ctx : Context) where
  -- The generator after n more questions, from its next resumption on.
  abbrev asked : Bool → ℕ → PactMessage × Paused → List PactMessage × String
  asked raises n r = (r.0 ∷ (drawn p a e ctx raises n r.1).0, (drawn p a e ctx raises n r.1).1)

  closing-Cut :
      (raises : Bool) (seq n : ℕ) (last : Option Dict)
      → Cut p a e ctx raises
          (suc n)
          (closing p a e ctx raises seq (or_empty_dict last) ∷ [])
          (asked raises n (resume p a e ctx raises seq last []))
  unfolding resume drawn take length
  closing-Cut true seq zero none = refl
  closing-Cut true seq (suc n) none = rw (ltb_one n) refl
  closing-Cut false seq zero none = refl
  closing-Cut false seq (suc n) none = rw (ltb_one n) refl
  closing-Cut true seq zero (some d) = refl
  closing-Cut true seq (suc n) (some d) = rw (ltb_one n) refl
  closing-Cut false seq zero (some d) = refl
  closing-Cut false seq (suc n) (some d) = rw (ltb_one n) refl

  resume-Cut :
      (raises : Bool) (seq n : ℕ) (d : Dict) (vs : List Value)
      → Cut p a e ctx raises
          (suc n)
          (chunks_from p a e ctx raises seq d (map as_payload vs))
          (asked raises n (resume p a e ctx raises seq (some d) vs))
  unfolding resume drawn take length
  resume-Cut raises seq n d [] = closing-Cut raises seq n (some d)
  resume-Cut raises seq zero d (v ∷ vs) =
      rw
        (ltb-suc_one
          (length (chunks_from p a e ctx raises (suc seq) (as_payload v) (map as_payload vs))))
        refl
  resume-Cut raises seq (suc n) d (v ∷ vs) =
      Cut-next p a e ctx raises (suc n) (build_and_sign p a e ctx seq d false) _ _
        (resume-Cut raises (suc seq) n (as_payload v) vs)

  -- A consumer that asks n + 1 times gets the first n + 1 chunks of the whole stream, or all of them: the
  -- payloads of the handler in order, numbered from zero, the last one final, with an error chunk in place
  -- of the last payload if the handler raises. The outcome is "cancelled" unless it has asked once more
  -- than there are chunks, and then "failed" if the handler raised and "completed" otherwise.
  pub stream_chunks-take :
      (raises : Bool) (payloads : List Value) (n : ℕ)
      → stream_chunks p a e ctx raises payloads n ≡ (
        take (suc n) (all_chunks p a e ctx raises payloads),
        outcome_after p a e ctx raises (suc n) (all_chunks p a e ctx raises payloads),
      )
  unfolding stream_chunks resume
  stream_chunks-take raises [] n = closing-Cut raises 0 n none
  stream_chunks-take raises (v ∷ vs) n = resume-Cut raises 0 n (as_payload v) vs
