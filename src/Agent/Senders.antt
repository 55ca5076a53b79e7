-- ===== src/Agent/Senders.antt =====
-- Where the key comes from under which _step_verify_sender of agent.py lets a message through.
use pact_passport.Agent.Tracks.{sender_key-spares, maybe_refresh-spares}
use pact_passport.Agent.Refusals.{unless_refused, dispatch_err-IsFinal}
use pact_passport.Agent.Task.{verified_sender, step_verify_sender, refreshed_sender}
use pact_passport.Base.{
  ◌∙◌, ap, inr, inl, Bool-cases, sym, ◌≡◌, refl, subst, Bool, true, false, ◌&&◌, String, Option,
  none, some, arith, string_eq,
}
use pact_passport.Json.{Value, Dict, null, bool, int, str, arr, obj, get}
use pact_passport.Platform.{Platform, Bytes}
use pact_passport.Message.{PactMessage}
use pact_passport.Message.Build.{equals_text}
use pact_passport.Message.Check.{verify_message}
use pact_passport.Store.{Store, load_peer}
use pact_passport.Agent.State.{next, Agent, AgentState, Env, Context}
use pact_passport.Agent.Peers.{
  maybe_refresh_peer_after_rotation, sender_key, first_use, filled, resolve_sender_key, binds_to,
  decode_value, registered, tofu, tofu_register, refreshed, refresh_key, refresh, continues,
}

module _ (p : Platform) where
  -- The document derives the sender's identifier from its key.
  pub record Binds (sender : String) (doc : Dict) (key : Bytes) : Type 0 where
    pub pub_b64 : String
    pub holds : get doc "public_key" ≡ some (str pub_b64)
    pub bound : binds_to p sender doc pub_b64 ≡ true
    pub decoded : p.b64decode pub_b64 ≡ some key

  registered-eq-some :
      (b : Bool) (claimed : String) (doc : Dict) (o : Option Bytes) (s t : Store) (key : Bytes)
      → registered p b claimed doc o s ≡ (some key, t)
      → (b ≡ true) × (o ≡ some key)
  registered-eq-some true claimed doc none s t key h = cc
  registered-eq-some true claimed doc (some k) s t key h = ground (arith, h)
  registered-eq-some false claimed doc none s t key h = cc
  registered-eq-some false claimed doc (some k) s t key h = cc

  tofu-Binds :
      (claimed : String) (doc : Dict) (v : Option Value) (s t : Store) (key : Bytes)
      → get doc "public_key" ≡ v
      → tofu p claimed doc v s ≡ (some key, t)
      → Binds claimed doc key
  tofu-Binds claimed doc (some (str b)) s t key e h =
      let (bound, decoded) =
        registered-eq-some (binds_to p claimed doc b) claimed doc (p.b64decode b) s t key h in
      record { pub_b64 = b; holds = e; bound = bound; decoded = decoded }
  tofu-Binds claimed doc none s t key e h = cc
  tofu-Binds claimed doc (some null) s t key e h = cc
  tofu-Binds claimed doc (some (bool b)) s t key e h = cc
  tofu-Binds claimed doc (some (int n)) s t key e h = cc
  tofu-Binds claimed doc (some (arr xs)) s t key e h = cc
  tofu-Binds claimed doc (some (obj d)) s t key e h = cc

  pub tofu_register-Binds :
      (claimed : String) (doc : Dict) (s t : Store) (key : Bytes)
      → tofu_register p claimed doc s ≡ (some key, t)
      → Binds claimed doc key
  unfolding tofu_register
  tofu_register-Binds claimed doc s t key h =
      tofu-Binds claimed doc (get doc "public_key") s t key refl h

  -- The new document has the key to which the cached one was committed.
  pub record Continues (sender : String) (doc : Dict) (s : Store) (key : Bytes) : Type 0 where
    pub holds : decode_value p (get doc "public_key") ≡ some key
    pub claims : equals_text (get doc "agent_id") sender ≡ true
    pub committed : continues p (filled (load_peer sender s)) key ≡ true

  refreshed-eq-some :
      (b : Bool) (sender : String) (doc : Dict) (k : Bytes) (s t : Store) (key : Bytes)
      → refreshed p b sender doc k s ≡ (some key, t)
      → (b ≡ true) × (k ≡ key)
  refreshed-eq-some true sender doc k s t key h = ground (arith, h)
  refreshed-eq-some false sender doc k s t key h = cc

  refresh_key-Continues :
      (sender : String) (doc : Dict) (o : Option Bytes) (s t : Store) (key : Bytes)
      → decode_value p (get doc "public_key") ≡ o
      → refresh_key p sender doc o s ≡ (some key, t)
      → Continues sender doc s key
  refresh_key-Continues sender doc none s t key e h = cc
  refresh_key-Continues sender doc (some k) s t key e h =
      let (both, same) =
        refreshed-eq-some
          (equals_text (get doc "agent_id") sender && continues p (filled (load_peer sender s)) k)
          sender doc k s t key h in
      subst (Continues sender doc s) same
        (record { holds = e; claims = ground (arith, both); committed = ground (arith, both) })

  -- The key is cached for the sender; or the sender is met for the first time, with a document that
  -- derives its identifier; or its document continues the one that is cached.
  pub data KeyOrigin (m : PactMessage) (s : Store) (key : Bytes) : Type 0 where
    known : resolve_sender_key p m.from_agent s ≡ some key → KeyOrigin m s key
    first_met :
        (doc : Dict)
        → resolve_sender_key p m.from_agent s ≡ none
        → filled m.identity_doc ≡ some doc
        → Binds m.from_agent doc key
        → KeyOrigin m s key
    rotated :
        (doc : Dict)
        → filled m.identity_doc ≡ some doc
        → Continues m.from_agent doc (sender_key p m (resolve_sender_key p m.from_agent s) s).1 key
        → KeyOrigin m s key

  first_use-origin :
      (m : PactMessage) (o : Option Dict) (s t : Store) (key : Bytes)
      → resolve_sender_key p m.from_agent s ≡ none
      → filled m.identity_doc ≡ o
      → first_use p m.from_agent o s ≡ (some key, t)
      → KeyOrigin m s key
  first_use-origin m none s t key unknown e h = cc
  first_use-origin m (some doc) s t key unknown e h =
      first_met doc unknown e (tofu_register-Binds m.from_agent doc s t key h)

  sender_key-origin :
      (m : PactMessage) (o : Option Bytes) (s t : Store) (key : Bytes)
      → resolve_sender_key p m.from_agent s ≡ o
      → sender_key p m o s ≡ (some key, t)
      → KeyOrigin m s key
  sender_key-origin m none s t key e h = first_use-origin m (filled m.identity_doc) s t key e refl h
  sender_key-origin m (some k) s t key e h = known (ground (arith, e, h))

  refresh-origin :
      (m : PactMessage) (o : Option Dict) (s t u : Store) (key : Bytes)
      → (sender_key p m (resolve_sender_key p m.from_agent s) s).1 ≡ t
      → filled m.identity_doc ≡ o
      → refresh p m.from_agent o t ≡ (some key, u)
      → KeyOrigin m s key
  refresh-origin m none s t u key after e h = cc
  refresh-origin m (some doc) s t u key after e h = rotated doc e (
      subst (λ x. Continues m.from_agent doc x key) (sym after)
        (refresh_key-Continues m.from_agent doc (decode_value p (get doc "public_key")) t u key refl
          h))

module _ (p : Platform) (a : Agent) (e : Env) where
  -- What a message has when its sender has been verified; only the store may have changed.
  pub record Verified (ctx : Context) (s : AgentState) (ctx' : Context) (u : AgentState)
      : Type 0 where
    pub key : Bytes
    pub sender : ctx' ≡ record ctx { sender_pub = some key }
    pub signed : verify_message p ctx.msg key ≡ true
    pub origin : KeyOrigin p ctx.msg s.store key
    pub frame :
        (u.cache ≡ s.cache) × (u.counts ≡ s.counts) × (u.store.capabilities ≡ s.store.capabilities)

  accepted :
      (ctx : Context) (key : Bytes) (s s1 : AgentState) {ctx' : Context} {u : AgentState}
      → KeyOrigin p ctx.msg s.store key
      → (s1.cache ≡ s.cache)
        × (s1.counts ≡ s.counts)
        × (s1.store.capabilities ≡ s.store.capabilities)
      → (verify_message p ctx.msg key ≡ true)
        × (record ctx { sender_pub = some key } ≡ ctx')
        × (s1 ≡ u)
      → Verified ctx s ctx' u
  accepted ctx key s s1 {ctx'} {u} origin frame (signed, same, after) =
      subst (λ x. Verified ctx s x u) same
        (subst (λ x. Verified ctx s (record ctx { sender_pub = some key }) x) after
          (record { key = key; sender = refl; signed = signed; origin = origin; frame = frame }))

  refreshed_sender-Verified :
      (ctx : Context) (r : Option Bytes × Store) (s : AgentState) (t : Store) {ctx' : Context}
      {u : AgentState}
      → ((key : Bytes) → r.0 ≡ some key → KeyOrigin p ctx.msg s.store key)
      → r.1.capabilities ≡ s.store.capabilities
      → refreshed_sender p a e ctx r (record s { store = t }) ≡ (next ctx', u)
      → Verified ctx s ctx' u
  refreshed_sender-Verified ctx (none, v) s t {ctx'} {u} origin keeps h =
      absurd (dispatch_err-IsFinal p a e ctx "invalid_signature" (record s { store = v }) ctx' u h)
  refreshed_sender-Verified ctx (some key, v) s t origin keeps h =
      accepted ctx key s (record s { store = v }) (origin key refl) (refl, refl, keeps)
        (unless_refused p a e ctx "invalid_signature" (verify_message p ctx.msg key)
          (record ctx { sender_pub = some key }) (record s { store = v }) (record s { store = v })
          h)

  refreshed_origin :
      (m : PactMessage) (s t : Store) (key : Bytes)
      → (sender_key p m (resolve_sender_key p m.from_agent s) s).1 ≡ t
      → (maybe_refresh_peer_after_rotation p m t).0 ≡ some key
      → KeyOrigin p m s key
  unfolding maybe_refresh_peer_after_rotation
  refreshed_origin m s t key after h =
      refresh-origin p m (filled m.identity_doc) s t
        (refresh p m.from_agent (filled m.identity_doc) t).1 key after refl
        (λ i. (h i, (refresh p m.from_agent (filled m.identity_doc) t).1))

  verified_sender-Verified :
      (ctx : Context) (r : Option Bytes × Store) (s : AgentState) {ctx' : Context} {u : AgentState}
      → sender_key p ctx.msg (resolve_sender_key p ctx.msg.from_agent s.store) s.store ≡ r
      → verified_sender p a e ctx r s ≡ (next ctx', u)
      → Verified ctx s ctx' u
  verified_sender-Verified ctx (none, t) s {ctx'} {u} same h =
      absurd (dispatch_err-IsFinal p a e ctx "unknown_peer" (record s { store = t }) ctx' u h)
  verified_sender-Verified ctx (some key, t) s same h =
      let first =
        sender_key-spares p ctx.msg (resolve_sender_key p ctx.msg.from_agent s.store) s.store in
      let keeps : t.capabilities ≡ s.store.capabilities =
        subst (λ (x : Option Bytes × Store). x.1.capabilities ≡ s.store.capabilities) same
          first.1 in
      elim (Bool-cases (verify_message p ctx.msg key)) [
        | inl good ↦
            accepted ctx key s (record s { store = t })
              (sender_key-origin p ctx.msg (resolve_sender_key p ctx.msg.from_agent s.store) s.store
                t key refl same)
              (refl, refl, keeps) (good, ground (arith, good, h), ground (arith, good, h))
        | inr bad ↦
            refreshed_sender-Verified ctx (maybe_refresh_peer_after_rotation p ctx.msg t) s t
              (λ k h0. refreshed_origin ctx.msg s.store t k (ap (λ x. x.1) same) h0)
              ((maybe_refresh-spares p ctx.msg t).1 ∙ keeps) (rw bad at h)
      ]

  -- A message gets past the step only with a signature under a key that is the sender's.
  pub step_verify_sender-Verified :
      (ctx : Context) (s : AgentState) {ctx' : Context} {u : AgentState}
      → step_verify_sender p a e ctx s ≡ (next ctx', u)
      → Verified ctx s ctx' u
  unfolding step_verify_sender
  step_verify_sender-Verified ctx s h =
      verified_sender-Verified ctx
        (sender_key p ctx.msg (resolve_sender_key p ctx.msg.from_agent s.store) s.store) s refl h
