-- ===== src/Agent/Invocations.antt =====
-- The limit on the invocations of a capability, over the whole life of an agent: any sequence of task
-- requests, with restarts of the process in between.
use pact_passport.Agent.Passed.{Granted}
use pact_passport.Agent.Authorized.{validators-Authorized}
use pact_passport.Agent.Granted.{no_ablations}
use pact_passport.Base.{
  ◌∷◌, max, [], ◌∙◌, ap, sym, subst, ◌≡◌, refl, Bool, true, false, ◌&&◌, Bool-cases, inl, inr, ◌⊎◌,
  ℕ, ◌+◌, ◌≤◌, ◌<◌, ℤ, pos, leb_ℤ, String, Option, none, some, List, arith, if◌then◌else◌, ◌==◌,
  string_eq, eq_iff, put, find-put,
}
use pact_passport.Json.{Dict}
use pact_passport.Errors.{Result, ok}
use pact_passport.Platform.{Bytes, Platform}
use pact_passport.Capability.{CapabilityToken}
use pact_passport.Message.{PactMessage}
use pact_passport.Store.{Store, load_invocation_counts}
use pact_passport.Agent.State.{
  started, Agent, AgentState, Env, Context, context_start, Control, HandlerResult, next, reply,
  fail,
}
use pact_passport.Agent.Cache.{ensure_state_loaded}
use pact_passport.Agent.Capability.{count_of, get_max_invocations}
use pact_passport.Agent.Run.{handle_task, validators}
use pact_passport.Agent.Tracks.{Tracks, IsSynced}
use pact_passport.Agent.Limit.{validators-Tracks, ran-Tracks}

-- A process that has loaded its state has it on disk; one that has not will load it from there.
abbrev Ready : AgentState → Type 0
Ready s = s.state_loaded ≡ true → s.store.invocation_counts ≡ s.counts

-- The counts that the next request will see.
current : AgentState → List (String × ℕ)
current s = if s.state_loaded then s.counts else s.store.invocation_counts

module _ (p : Platform) (now : ℕ) where
  ensure_state_loaded-current : (s : AgentState) → (ensure_state_loaded p now s).counts ≡ current s
  unfolding ensure_state_loaded current load_invocation_counts
  ensure_state_loaded-current s = ground arith

  ensure_state_loaded-IsSynced : (s : AgentState) → Ready s → IsSynced (ensure_state_loaded p now s)
  unfolding ensure_state_loaded load_invocation_counts
  ensure_state_loaded-IsSynced s ready = elim (Bool-cases s.state_loaded) [
    | inl on ↦ simp on (record { loaded = on; disk = ready on })
    | inr off ↦ simp off (record { loaded = refl; disk = refl })
  ]

-- One run of a handler under the capability `c` with a limit of at most `n`, or none.
abbrev within : ℕ → Result (Option ℤ) → Bool
within n (ok (some limit)) = leb_ℤ limit (pos n)
within n r = false

abbrev under : String → ℕ → Option CapabilityToken → ℕ
under c n none = 0
under c n (some t) = if t.cap_id == c && within n (get_max_invocations t) then 1 else 0

abbrev runs_of : String → ℕ → Control (Context × (Dict → HandlerResult)) × AgentState → ℕ
runs_of c n (next (ctx, handler), s) = under c n ctx.cap_token
runs_of c n (reply r, s) = 0
runs_of c n (fail err, s) = 0

-- A run raises the count, and happens below the limit.
abbrev Below : String → ℕ → List (String × ℕ) → List (String × ℕ) → ℕ → Type 0
Below c n counts counts' k =
    (count_of counts c + k ≤ count_of counts' c) × (k ≤ 1) × ((k ≡ 0) ⊎ (count_of counts c < n))

not_run : (c : String) (n : ℕ) (s u : AgentState) → Tracks s u → Below c n s.counts u.counts 0
not_run c n s u t = (omega (arith, t.grows c), omega arith, inl refl)

counted-Below :
    (c : String) (n : ℕ) (t : CapabilityToken) (limit : ℤ) (counts : List (String × ℕ))
    → get_max_invocations t ≡ ok (some limit)
    → leb_ℤ limit (pos (count_of counts t.cap_id)) ≡ false
    → Below c n counts (put counts t.cap_id (count_of counts t.cap_id + 1)) (under c n (some t))
counted-Below c n t limit counts e0 free =
    ground (arith, find-put counts t.cap_id (count_of counts t.cap_id + 1) c, eq_iff t.cap_id c)

unlimited-Below :
    (c : String) (n : ℕ) (t : CapabilityToken) (counts : List (String × ℕ))
    → get_max_invocations t ≡ ok none
    → Below c n counts counts (under c n (some t))
unlimited-Below c n t counts e0 = ground (arith, e0)

module _ (p : Platform) (a : Agent) (e : Env) (off : a.ablations ≡ no_ablations) (c : String)
    (n : ℕ) where
  granted-Below :
      (ctx ctx' : Context) (key : Bytes) (s u : AgentState)
      → ctx.cap_token ≡ none
      → Granted p a e ctx key ctx' s u
      → Below c n s.counts u.counts (under c n ctx'.cap_token)
  granted-Below ctx ctx' key s u bare (inl (named, same, stays)) =
      subst (λ x. Below c n s.counts x.counts (under c n ctx'.cap_token)) (sym stays)
        (subst (λ o. Below c n s.counts s.counts (under c n o))
          (sym (ap (λ x. x.cap_token) same ∙ bare)) (omega arith, omega arith, inl refl))
  granted-Below ctx ctx' key s u bare (inr (cap_id, cap, t, named, found, read, same, granted)) =
      subst (λ o. Below c n s.counts u.counts (under c n o)) (sym (ap (λ x. x.cap_token) same))
        (elim granted.rate [
          | inl (unlimited, stays) ↦
              subst (λ x. Below c n s.counts x (under c n (some t))) (sym stays)
                (unlimited-Below c n t s.counts unlimited)
          | inr (limit, limited, free, raised) ↦
              subst (λ x. Below c n s.counts x (under c n (some t))) (sym raised)
                (counted-Below c n t limit s.counts limited free)
        ])

  validators-Below :
      (m : PactMessage) (s : AgentState)
      (r : Control (Context × (Dict → HandlerResult)) × AgentState)
      → validators p a e m s ≡ r
      → Below c n s.counts r.1.counts (runs_of c n r)
  validators-Below m s (next (ctx, handler), u) h =
      let v = validators-Authorized p a e off m s h in
      subst (λ x. Below c n x u.counts (under c n ctx.cap_token)) v.counts
        (granted-Below (record (context_start m) { sender_pub = some v.key }) ctx v.key v.mid u refl
          v.granted)
  validators-Below m s (reply r, u) h =
      not_run c n s u (subst (λ x. Tracks s x.1) h (validators-Tracks p a e m s))
  validators-Below m s (fail err, u) h =
      not_run c n s u (subst (λ x. Tracks s x.1) h (validators-Tracks p a e m s))

current-synced : (s : AgentState) → IsSynced s → current s ≡ s.counts
unfolding current
current-synced s i = rw i.loaded refl

Below-run :
    (c : String) (n : ℕ) (counts0 counts1 counts2 : List (String × ℕ)) (k : ℕ)
    {before after' : List (String × ℕ)}
    → Below c n counts0 counts1 k
    → count_of counts1 c ≤ count_of counts2 c
    → counts0 ≡ before
    → after' ≡ counts2
    → Below c n before after' k
Below-run c n counts0 counts1 counts2 k {before} {after'} b grows same0 same2 =
    subst (λ x. Below c n x after' k) same0
      (subst (λ x. Below c n counts0 x k) (sym same2) (omega (arith, b.0), b.1, b.2))

add_run :
    (n k0 k1 k rest : ℕ)
    → (k0 + k ≤ k1) × (k ≤ 1) × ((k ≡ 0) ⊎ (k0 < n))
    → k1 + rest ≤ max n k1
    → k0 + (k + rest) ≤ max n k0
add_run n k0 k1 k rest below h = ground (arith, below, h)

-- What happens to an agent: a task request, or a restart, of which only the store is left.
pub data Event : Type 0 where
  request : Env → PactMessage → Event
  restart : Event

module _ (p : Platform) (a : Agent) where
  unfoldable pub happen : Event → AgentState → AgentState
  unfolding handle_task ensure_state_loaded validators
  happen (request e m) s = (handle_task p a e m s).1
  happen restart s = started s.store

  -- The runs of handlers under `c` with a limit of at most `n`.
  unfoldable pub runs : String → ℕ → List Event → AgentState → ℕ
  unfolding happen
  runs c n [] s = 0
  runs c n (request e m ∷ es) s =
      runs_of c n (validators p a e m (ensure_state_loaded p e.now s))
      + runs c n es (happen (request e m) s)
  runs c n (restart ∷ es) s = runs c n es (happen restart s)

  restarted : (s : AgentState) → Ready s → current (happen restart s) ≡ current s
  unfolding happen current
  restarted s ready = elim (Bool-cases s.state_loaded) [
    | inl on ↦ rw on (ready on)
    | inr off ↦ rw off refl
  ]

  module _ (off : a.ablations ≡ no_ablations) (c : String) (n : ℕ) where
    -- The state after a request: ready, and its counts are those that the run leaves or more.
    request-Below :
        (e : Env) (m : PactMessage) (s : AgentState)
        → Ready s
        → Ready (happen (request e m) s)
          × Below c n
              (current s)
              (current (happen (request e m) s))
              (runs_of c n (validators p a e m (ensure_state_loaded p e.now s)))
    unfolding happen
    request-Below e m s ready =
        let s0 = ensure_state_loaded p e.now s in
        let r = validators p a e m s0 in
        let ran = ran-Tracks p a e r in
        let synced =
          ran.synced (
            (validators-Tracks p a e m s0).synced (ensure_state_loaded-IsSynced p e.now s ready)) in
        let below = validators-Below p a e off c n m s0 r refl in
        (
          λ _. synced.disk,
          Below-run c n s0.counts r.1.counts (happen (request e m) s).counts _ below (ran.grows c)
              (ensure_state_loaded-current p e.now s) (current-synced _ synced),
        )

    -- Over any sequence of requests and restarts, the handlers that run under a capability with a limit
    -- of at most n are n at most, counting those before.
    runs_bounded :
        (es : List Event) (s : AgentState)
        → Ready s
        → count_of (current s) c + runs c n es s ≤ max n (count_of (current s) c)
    unfolding runs
    runs_bounded [] s ready = omega arith
    runs_bounded (restart ∷ es) s ready =
        subst (λ x. count_of x c + runs c n es (happen restart s) ≤ max n (count_of x c))
          (restarted s ready) (runs_bounded es (happen restart s) (λ on. cc))
    runs_bounded (request e m ∷ es) s ready =
        let (ready', below) = request-Below e m s ready in
        add_run n _ _ _ _ below (runs_bounded es (happen (request e m) s) ready')

    -- With the experimental switches off, and from any store in which the capability has no count yet:
    -- over any sequence of task requests and restarts of the process, no more than n handlers run under
    -- a capability whose least max_invocations caveat is at most n.
    pub runs-le :
        (es : List Event) (store : Store)
        → count_of store.invocation_counts c ≡ 0
        → runs c n es (started store) ≤ n
    unfolding current
    runs-le es store fresh = omega (arith, runs_bounded es (started store) (λ on. cc))
