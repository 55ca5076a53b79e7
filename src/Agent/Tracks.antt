-- ===== src/Agent/Tracks.antt =====
-- No step of _handle_task of agent.py lowers a count of invocations, and the counts in memory stay those
-- on disk, whether the step goes on, answers or raises.
use pact_passport.Base.{
  subst, ◌≡◌, refl, sym, ◌∙◌, Bool-cases, inl, inr, ℕ, ◌+◌, ◌≤◌, Bool, true, false, String, Option,
  none, some, List, arith, if◌then◌else◌, string_eq, put, find-put, eq_iff,
}
use pact_passport.Json.{Value, Dict, null, bool, int, str, arr, obj, get}
use pact_passport.Errors.{◌>>=◌, Result, ok, raise}
use pact_passport.Platform.{Platform, Bytes}
use pact_passport.Wire.{need_text, text_or}
use pact_passport.Message.{PactMessage}
use pact_passport.Message.Dicts.{message_to_dict}
use pact_passport.Store.{Store, save_message, save_receipt, save_capability, save_peer}
use pact_passport.Agent.State.{
  Agent, AgentState, Env, Context, Control, next, reply, fail, Step, after, or_fail, saved, save,
}
use pact_passport.Agent.Peers.{
  filled, registered, tofu, tofu_register, first_use, sender_key, refreshed, refresh_key, refresh,
  maybe_refresh_peer_after_rotation, binds_to, decode_value,
}
use pact_passport.Agent.Answers.{persist_receipt, dispatch_err, error_res, error_receipt}
use pact_passport.Agent.Capability.{count_of}

-- The state has been loaded, and the counts on disk are those in memory.
pub record IsSynced (s : AgentState) : Type 0 where
  pub loaded : s.state_loaded ≡ true
  pub disk : s.store.invocation_counts ≡ s.counts

pub record Tracks (s u : AgentState) : Type 0 where
  pub grows : (c : String) → count_of s.counts c ≤ count_of u.counts c
  pub synced : IsSynced s → IsSynced u

-- Nothing that matters here has changed.
pub record Same (s u : AgentState) : Type 0 where
  pub counts : u.counts ≡ s.counts
  pub disk : u.store.invocation_counts ≡ s.store.invocation_counts
  pub loaded : u.state_loaded ≡ s.state_loaded

pub Same-Tracks : {s u : AgentState} → Same s u → Tracks s u
Same-Tracks {s} {u} h = record {
  grows = λ c. subst (λ x. count_of s.counts c ≤ count_of x c) (sym h.counts) (omega arith);
  synced = λ i. record { loaded = h.loaded ∙ i.loaded; disk = h.disk ∙ i.disk ∙ sym h.counts };
}

pub Tracks-refl : (s : AgentState) → Tracks s s
Tracks-refl s = record { grows = λ c. omega arith; synced = λ i. i }

pub Tracks-trans : {s t u : AgentState} → Tracks s t → Tracks t u → Tracks s u
Tracks-trans {s} {t} {u} h k = record {
  grows = λ c. omega (arith, h.grows c, k.grows c);
  synced = λ i. k.synced (h.synced i);
}

pub after-Tracks {ℓ κ} :
    {A : Type ℓ} {B : Type κ} (s : AgentState) (r : Control A × AgentState) (f : A → Step B)
    → Tracks s r.1
    → ((x : A) (t : AgentState) → Tracks t (f x t).1)
    → Tracks s (after r f).1
after-Tracks s (next x, t) f h k = Tracks-trans h (k x t)
after-Tracks s (reply r, t) f h k = h
after-Tracks s (fail err, t) f h k = h

pub if-Tracks {ℓ} :
    {A : Type ℓ} (b : Bool) (s : AgentState) (x y : Control A × AgentState)
    → Tracks s x.1
    → Tracks s y.1
    → Tracks s (if b then x else y).1
if-Tracks true s x y h k = h
if-Tracks false s x y h k = k

pub choose-Tracks {ℓ} :
    {A : Type ℓ} (b : Bool) (m k : Step A) (s : AgentState)
    → Tracks s (m s).1
    → Tracks s (k s).1
    → Tracks s ((if b then m else k) s).1
choose-Tracks true m k s h l = h
choose-Tracks false m k s h l = l

pub or_fail-Tracks {ℓ} : {A : Type ℓ} (r : Result A) (s : AgentState) → Tracks s (or_fail r s).1
or_fail-Tracks (ok x) s = Tracks-refl s
or_fail-Tracks (raise err) s = Tracks-refl s

-- A write that leaves the counts on disk alone.
abbrev Spares : Store → Result Store → Type 0
Spares s (ok t) = t.invocation_counts ≡ s.invocation_counts
Spares s (raise err) = Unit {0}

saved-Tracks : (r : Result Store) (s : AgentState) → Spares s.store r → Tracks s (saved r s).1
saved-Tracks (ok t) s h = Same-Tracks (record { counts = refl; disk = h; loaded = refl })
saved-Tracks (raise err) s h = Tracks-refl s

>>=-Spares {ℓ} :
    {A : Type ℓ} (s : Store) (r : Result A) (f : A → Result Store)
    → ((x : A) → Spares s (f x))
    → Spares s (r >>= f)
>>=-Spares s (ok x) f h = h x
>>=-Spares s (raise err) f h = tt

save_message-Spares : (d : Dict) (s : Store) → Spares s (save_message d s)
unfolding save_message
save_message-Spares d s = >>=-Spares s (need_text (get d "id")) _ (λ id. refl)

save_receipt-Spares : (d : Dict) (s : Store) → Spares s (save_receipt d s)
unfolding save_receipt
save_receipt-Spares d s =
    >>=-Spares s (text_or "unknown" (get d "timestamp")) _
      (λ timestamp. >>=-Spares s (text_or "unknown" (get d "task_ref")) _ (λ task_ref. refl))

save_capability-Spares : (d : Dict) (s : Store) → Spares s (save_capability d s)
unfolding save_capability
save_capability-Spares d s = >>=-Spares s (need_text (get d "cap_id")) _ (λ cap_id. refl)

pub counted-le :
    (counts : List (String × ℕ)) (k c : String)
    → count_of counts c ≤ count_of (put counts k (count_of counts k + 1)) c
counted-le counts k c = ground (arith, find-put counts k (count_of counts k + 1) c, eq_iff k c)

module _ (p : Platform) where
  -- What the peers' functions leave behind.
  abbrev pub SparesSecond : Store → Option Bytes × Store → Type 0
  SparesSecond s r =
      (r.1.invocation_counts ≡ s.invocation_counts) × (r.1.capabilities ≡ s.capabilities)

  save_peer-spares :
      (sender : String) (doc : Dict) (s : Store)
      → ((save_peer sender doc s).invocation_counts ≡ s.invocation_counts)
        × ((save_peer sender doc s).capabilities ≡ s.capabilities)
  unfolding save_peer
  save_peer-spares sender doc s = (refl, refl)

  registered-spares :
      (b : Bool) (claimed : String) (doc : Dict) (o : Option Bytes) (s : Store)
      → SparesSecond s (registered p b claimed doc o s)
  registered-spares true claimed doc (some key) s = save_peer-spares claimed doc s
  registered-spares true claimed doc none s = (refl, refl)
  registered-spares false claimed doc o s = (refl, refl)

  tofu-spares :
      (claimed : String) (doc : Dict) (v : Option Value) (s : Store)
      → SparesSecond s (tofu p claimed doc v s)
  tofu-spares claimed doc (some (str b)) s =
      registered-spares (binds_to p claimed doc b) claimed doc (p.b64decode b) s
  tofu-spares claimed doc none s = (refl, refl)
  tofu-spares claimed doc (some null) s = (refl, refl)
  tofu-spares claimed doc (some (bool b)) s = (refl, refl)
  tofu-spares claimed doc (some (int n)) s = (refl, refl)
  tofu-spares claimed doc (some (arr xs)) s = (refl, refl)
  tofu-spares claimed doc (some (obj d)) s = (refl, refl)

  first_use-spares :
      (sender : String) (o : Option Dict) (s : Store) → SparesSecond s (first_use p sender o s)
  unfolding tofu_register
  first_use-spares sender none s = (refl, refl)
  first_use-spares sender (some doc) s = tofu-spares sender doc (get doc "public_key") s

  pub sender_key-spares :
      (m : PactMessage) (o : Option Bytes) (s : Store) → SparesSecond s (sender_key p m o s)
  sender_key-spares m (some key) s = (refl, refl)
  sender_key-spares m none s = first_use-spares m.from_agent (filled m.identity_doc) s

  refreshed-spares :
      (b : Bool) (sender : String) (doc : Dict) (key : Bytes) (s : Store)
      → SparesSecond s (refreshed p b sender doc key s)
  refreshed-spares true sender doc key s = save_peer-spares sender doc s
  refreshed-spares false sender doc key s = (refl, refl)

  refresh_key-spares :
      (sender : String) (doc : Dict) (o : Option Bytes) (s : Store)
      → SparesSecond s (refresh_key p sender doc o s)
  refresh_key-spares sender doc none s = (refl, refl)
  refresh_key-spares sender doc (some key) s = refreshed-spares _ sender doc key s

  refresh-spares :
      (sender : String) (o : Option Dict) (s : Store) → SparesSecond s (refresh p sender o s)
  refresh-spares sender none s = (refl, refl)
  refresh-spares sender (some doc) s =
      refresh_key-spares sender doc (decode_value p (get doc "public_key")) s

  pub maybe_refresh-spares :
      (m : PactMessage) (s : Store) → SparesSecond s (maybe_refresh_peer_after_rotation p m s)
  unfolding maybe_refresh_peer_after_rotation
  maybe_refresh-spares m s = refresh-spares m.from_agent (filled m.identity_doc) s

module _ (p : Platform) (a : Agent) (e : Env) where
  pub persist_receipt-Tracks : (d : Dict) (s : AgentState) → Tracks s (persist_receipt p a e d s).1
  unfolding persist_receipt
  persist_receipt-Tracks d s = elim (Bool-cases a.ablations.receipt) [
    | inl on ↦ simp on (Tracks-refl s)
    | inr off ↦ simp off (saved-Tracks (save_receipt d s.store) s (save_receipt-Spares d s.store))
  ]

  pub save_message-Tracks : (d : Dict) (s : AgentState) → Tracks s (save (save_message d) s).1
  save_message-Tracks d s = saved-Tracks (save_message d s.store) s (save_message-Spares d s.store)

  pub save_capability-Tracks : (d : Dict) (s : AgentState) → Tracks s (save (save_capability d) s).1
  save_capability-Tracks d s =
      saved-Tracks (save_capability d s.store) s (save_capability-Spares d s.store)

  pub dispatch_err-Tracks {ℓ} :
      (A : Type ℓ) (ctx : Context) (code : String) (s : AgentState)
      → Tracks s (dispatch_err p a e {A = A} ctx code s).1
  unfolding dispatch_err
  dispatch_err-Tracks A ctx code s =
      after-Tracks s (save (save_message (message_to_dict ctx.msg)) s) _
        (save_message-Tracks (message_to_dict ctx.msg) s)
        (λ _ t.
          after-Tracks t (save (save_message (message_to_dict (error_res p a e ctx code))) t) _
            (save_message-Tracks (message_to_dict (error_res p a e ctx code)) t)
            (λ _ u.
              after-Tracks u (persist_receipt p a e (error_receipt p a e ctx code) u) _
                (persist_receipt-Tracks (error_receipt p a e ctx code) u) (λ _ v. Tracks-refl v)))
