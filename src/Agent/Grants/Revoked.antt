-- ===== src/Agent/Grants/Revoked.antt =====
-- A capability that has been revoked is of no use (agent.py).
use pact_passport.Base.{
  ◌≡◌, ◌≢◌, ◌∙◌, refl, sym, ap, subst, Bool, true, false, inl, inr, String, Option, none, some,
  ◌==◌, string_eq, if◌then◌else◌, eq_refl, arith,
}
use pact_passport.Json.{Value, Dict, bool, str, get, set, end, field}
use pact_passport.Json.Dicts.{get-set}
use pact_passport.Errors.{Result, ok, raise, ◌>>=◌}
use pact_passport.Platform.{Platform}
use pact_passport.Wire.{truthy, need_text, maybe_text, text_or, flag_or_false}
use pact_passport.Message.{PactMessage}
use pact_passport.Capability.{CapabilityToken, alg_name}
use pact_passport.Capability.Dicts.{items_or_nil, token_from_dict, caveats_of, links_of}
use pact_passport.Store.{Store, load_capability}
use pact_passport.Store.Laws.{load_capability_eq, load_capability-save_capability}
use pact_passport.Capability.Verify.{verify_capability}
use pact_passport.Capability.Verify.Steps.{accepted}
use pact_passport.Capability.Verify.Accepted.{verify_capability-Parts}
use pact_passport.Agent.State.{Agent, AgentState, Env, Context, context_start, HandlerResult, next}
use pact_passport.Agent.Peers.{filled, build_known_keys_for_chain}
use pact_passport.Agent.Granted.{no_ablations, Found}
use pact_passport.Agent.Run.{validators}
use pact_passport.Agent.Authorized.{validators-Authorized}
use pact_passport.Agent.Grants.{revoke, revoke_found}

-- What holds of a value that is read, if one is.
abbrev Read {ℓ κ} : {A : Type ℓ} → (A → Type κ) → Result A → Type (ℓ ⊔ κ)
Read {A = A} P r = (x : A) → r ≡ ok x → P x

>>=-Read {ℓ κ} :
    {A : Type ℓ} {B : Type κ} (P : B → Type 0) (r : Result A) (f : A → Result B)
    → ((x : A) → r ≡ ok x → Read P (f x))
    → Read P (r >>= f)
>>=-Read P (ok x) f h y k = h x refl y k
>>=-Read P (raise err) f h y k = cc

ok_injective_token : {s t : CapabilityToken} → Path (Result CapabilityToken) (ok s) (ok t) → s ≡ t
ok_injective_token h = ground (arith, h)

ok-revoked : (t : CapabilityToken) → t.revoked ≡ true → Read (λ x. x.revoked ≡ true) (ok t)
ok-revoked t h x k = subst (λ (y : CapabilityToken). y.revoked ≡ true) (ok_injective_token k) h

flag-true : (o : Option Value) (b : Bool) → o ≡ some (bool true) → flag_or_false o ≡ ok b → b ≡ true
flag-true o b h k =
    let read : Path (Result Bool) (ok true) (ok b) = subst (λ x. flag_or_false x ≡ ok b) h k in
    ground (arith, read)

-- A dict that says so is read as a revoked token.
token_from_dict-revoked :
    (d : Dict)
    → get d "revoked" ≡ some (bool true)
    → Read (λ x. x.revoked ≡ true) (token_from_dict d)
unfolding token_from_dict
token_from_dict-revoked d said =
    let P = λ (x : CapabilityToken). x.revoked ≡ true in
    >>=-Read P (need_text (get d "cap_id")) _ (λ cap_id _.
      >>=-Read P (need_text (get d "issuer")) _ (λ issuer _.
        >>=-Read P (need_text (get d "holder")) _ (λ holder _.
          >>=-Read P (need_text (get d "action")) _ (λ action _.
            >>=-Read P (items_or_nil (get d "caveats")) _ (λ caveat_dicts _.
              >>=-Read P (caveats_of caveat_dicts) _ (λ caveats _.
                >>=-Read P (maybe_text (get d "parent")) _ (λ parent _.
                  >>=-Read P (items_or_nil (get d "delegation_chain")) _ (λ link_dicts _.
                    >>=-Read P (links_of link_dicts) _ (λ chain _.
                      >>=-Read P (flag_or_false (get d "revoked")) _ (λ revoked flag.
                        >>=-Read P (flag_or_false (get d "visa")) _ (λ visa _.
                          >>=-Read P (maybe_text (get d "nonce")) _ (λ nonce _.
                            >>=-Read P (maybe_text (get d "ephemeral_key_fingerprint")) _
                              (λ fingerprint _.
                                >>=-Read P (text_or alg_name (get d "alg")) _ (λ alg _.
                                  >>=-Read P (text_or "" (get d "signature")) _ (λ signature _.
                                    ok-revoked _
                                      (flag-true (get d "revoked") revoked said flag))))))))))))))))

true_not_false : true ≡ false → ⊥
true_not_false h = cc

some_not_none {ℓ} : {A : Type ℓ} {x : A} → some x ≡ none → ⊥
some_not_none h = cc

module _ (p : Platform) (a : Agent) (e : Env) (off : a.ablations ≡ no_ablations) where
  -- What the store holds goes before what a message carries.
  only_stored :
      (ctx : Context) (cap d : Dict) (cap_id : String) (s : Store)
      → filled (load_capability cap_id s) ≡ some d
      → Found p a e ctx cap_id (filled (load_capability cap_id s)) cap
      → d ≡ cap
  only_stored ctx cap d cap_id s there (inl h) = ground (arith, there, h)
  only_stored ctx cap d cap_id s there (inr (absent, _, _)) =
      absurd (some_not_none (sym there ∙ absent))

  -- No request passes under a capability that the store holds as revoked.
  validators-revoked :
      (cap_id : String) (d : Dict) (m : PactMessage) (s : AgentState)
      {r : Context × (Dict → HandlerResult)} {u : AgentState}
      → filled (load_capability cap_id s.store) ≡ some d
      → get d "revoked" ≡ some (bool true)
      → truthy m.cap_id ≡ some cap_id
      → validators p a e m s ≢ (next r, u)
  validators-revoked cap_id d m s {r} {u} held said named h =
      let v = validators-Authorized p a e off m s h in
      let ctx : Context = record (context_start m) { sender_pub = some v.key } in
      let there = ap filled (load_capability_eq cap_id s.store v.mid.store v.capabilities) ∙ held in
      elim v.granted [
        | inl (bare, _, _) ↦ some_not_none (sym named ∙ bare)
        | inr (cap_id', cap, t, named', found, read, _, granted) ↦
            let same : cap_id' ≡ cap_id = ground (arith, named, named') in
            let stored =
              subst (λ x. Found p a e ctx x (filled (load_capability x v.mid.store)) cap) same
                found in
            let cap_said =
              subst (λ (x : Dict). get x "revoked" ≡ some (bool true))
                (only_stored ctx cap d cap_id v.mid.store there stored) said in
            let revoked = token_from_dict-revoked cap cap_said t read in
            let keys = build_known_keys_for_chain p a.agent_id (p.public_key a.key) t v.mid.store in
            let valid =
              subst
                (λ b.
                  verify_capability p b e.now t m.from_agent (p.public_key a.key) keys ≡ accepted)
                (ap (λ x. x.chain) off) granted.valid in
            let parts =
              verify_capability-Parts p e.now t m.from_agent (p.public_key a.key) keys valid in
            true_not_false (sym revoked ∙ parts.live)
      ]

ok_injective_pair : {x y : Bool × Store} → Path (Result (Bool × Store)) (ok x) (ok y) → x ≡ y
ok_injective_pair h = ground (arith, h)

filled_named : (d : Dict) (k : String) (v : Value) → get d k ≡ some v → filled (some d) ≡ some d
unfolding get
filled_named end k v h = cc
filled_named (field j w d) k v h = refl

same_key {ℓ} : {A : Type ℓ} (k : String) (x y : A) → (if k == k then x else y) ≡ x
same_key k x y = simp (eq_refl k) refl

module _ (p : Platform) (a : Agent) (off : a.ablations ≡ no_ablations) where
  -- The store after a capability has been revoked that is stored under its own identifier.
  revoke-returns :
      (cap_id : String) (d : Dict) (s : Store)
      → load_capability cap_id s ≡ some d
      → get d "cap_id" ≡ some (str cap_id)
      → (t : Store) × (revoke cap_id s ≡ ok (true, t))
        × (filled (load_capability cap_id t) ≡ some (set d "revoked" (bool true)))
  unfolding revoke
  revoke-returns cap_id d s held named =
      let d' = set d "revoked" (bool true) in
      let named' : get d' "cap_id" ≡ some (str cap_id) =
        get-set d "revoked" "cap_id" (bool true) ∙ named in
      let (t, saves, loads) = load_capability-save_capability d' cap_id s named' in
      (
        t,
        ap (λ x. revoke_found x s) (ap filled held ∙ filled_named d "cap_id" _ named)
            ∙ ap (λ (x : Result Store). x >>= λ u. ok (true, u)) saves,
        ap filled (loads cap_id ∙ same_key cap_id (some d') (load_capability cap_id s))
            ∙ filled_named d' "cap_id" _ named',
      )

  revoked_store :
      (cap_id : String) (d : Dict) (s t : Store) (found : Bool)
      → load_capability cap_id s ≡ some d
      → get d "cap_id" ≡ some (str cap_id)
      → revoke cap_id s ≡ ok (found, t)
      → (found ≡ true) × (filled (load_capability cap_id t) ≡ some (set d "revoked" (bool true)))
  revoked_store cap_id d s t found held named done =
      let (t', returns, kept) = revoke-returns cap_id d s held named in
      let same : (true, t') ≡ (found, t) = ok_injective_pair (sym returns ∙ done) in
      (
        sym (ap (λ x. x.0) same),
        subst (λ x. filled (load_capability cap_id x) ≡ some (set d "revoked" (bool true)))
            (ap (λ x. x.1) same) kept,
      )

  -- With the experimental switches off: revoking a capability that is stored under its own identifier
  -- answers True, and as long as the stored capabilities stay what they are then, no task request that names
  -- it gets to its handler, whoever sends it, at whatever moment, and whatever capability it carries along.
  pub validators-revoke :
      (cap_id : String) (d : Dict) (s t : Store) (found : Bool) (e : Env) (m : PactMessage)
      (u v : AgentState) (r : Context × (Dict → HandlerResult))
      → load_capability cap_id s ≡ some d
      → get d "cap_id" ≡ some (str cap_id)
      → revoke cap_id s ≡ ok (found, t)
      → u.store.capabilities ≡ t.capabilities
      → truthy m.cap_id ≡ some cap_id
      → (found ≡ true) × (validators p a e m u ≢ (next r, v))
  validators-revoke cap_id d s t found e m u v r held named done same names =
      let (answer, kept) = revoked_store cap_id d s t found held named done in
      (
        answer,
        validators-revoked p a e off cap_id (set d "revoked" (bool true)) m u
            (ap filled (load_capability_eq cap_id t u.store same) ∙ kept)
            (get-set d "revoked" "revoked" (bool true)) names,
      )
