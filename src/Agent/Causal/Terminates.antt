-- ===== src/Agent/Causal/Terminates.antt =====
-- The walk along the references ends, whatever messages are stored.
use pact_passport.Errors.{ok, Result}
use pact_passport.Agent.Peers.{filled}
use pact_passport.Base.{
  zero, suc, ◌∙◌, subst, none, ◌<◌, ◌≢◌, Option, ◌≡◌, refl, ℕ, ◌+◌, ◌≤◌, Bool, false, ◌||◌,
  Bool-cases, inl, inr, String, some, List, [], ◌∷◌, ◌++◌, arith, ◌==◌, string_eq, eq_iff,
  if◌then◌else◌, contains, length, find,
}
use pact_passport.Json.{end, field, Dict, get}
use pact_passport.Store.{load_message, Store, Files, json_file}
use pact_passport.Store.Laws.{json_file_eq}
use pact_passport.Agent.Causal.{
  take_off, suc, raise, follow, visit_message, search_from, get_causal_chain, visit, Search,
  refs_of, unvisited, width_of, references,
}

-- The files of the identifiers that have been visited.
visits : List String → String → Bool
visits [] name = false
visits (id ∷ ids) name = json_file id == name || visits ids name

visits-contains : (ids : List String) (id : String) → visits ids (json_file id) ≡ contains ids id
unfolding visits contains
visits-contains [] id = refl
visits-contains (j ∷ ids) id =
    ground (arith, json_file_eq j id, eq_iff j id, eq_iff id j, visits-contains ids id)

-- The references of the messages that have not been visited.
pending : List String → Files → ℕ
pending ids [] = 0
pending ids ((name, msg) ∷ fs) =
    if visits ids name then pending ids fs else width_of (refs_of (get msg "refs")) + pending ids fs

pending-none : (fs : Files) → pending [] fs ≡ references fs
unfolding pending references visits
pending-none [] = refl
pending-none ((name, msg) ∷ fs) = ground (arith, pending-none fs)

pending-le : (id : String) (ids : List String) (fs : Files) → pending (id ∷ ids) fs ≤ pending ids fs
unfolding pending visits
pending-le id ids [] = omega arith
pending-le id ids ((name, msg) ∷ fs) = ground (arith, pending-le id ids fs)

-- Visiting a message takes its references off those that are pending.
pending-visit :
    (id : String) (ids : List String) (msg : Dict) (fs : Files)
    → find fs (json_file id) ≡ some msg
    → visits ids (json_file id) ≡ false
    → width_of (refs_of (get msg "refs")) + pending (id ∷ ids) fs ≤ pending ids fs
unfolding pending visits find
pending-visit id ids msg [] h new = cc
pending-visit id ids msg ((name, d) ∷ fs) h new = elim (Bool-cases (name == json_file id)) [
  | inl e ↦
      let here : name ≡ json_file id = (eq_iff name (json_file id)).0 e in
      let same : d ≡ msg = ground (arith, e, h) in
      ground (arith, here, same, new, eq_iff (json_file id) name, pending-le id ids fs)
  | inr n ↦ ground (
    arith,
    n,
    eq_iff (json_file id) name,
    eq_iff name (json_file id),
    pending-visit id ids msg fs,
  )
]

length-append : (xs ys : List String) → length (xs ++ ys) ≡ length xs + length ys
unfolding length
length-append [] ys = omega arith
length-append (x ∷ xs) ys = omega (arith, length-append xs ys)

length-unvisited : (ids refs : List String) → length (unvisited ids refs) ≤ length refs
unfolding length unvisited
length-unvisited ids [] = omega arith
length-unvisited ids (r ∷ refs) = ground (arith, length-unvisited ids refs)

filled-eq-some : (o : Option Dict) (d : Dict) → filled o ≡ some d → o ≡ some d
filled-eq-some none d h = cc
filled-eq-some (some end) d h = cc
filled-eq-some (some (field k v e)) d h = h

module _ (s : Store) where
  -- What is left to do: the queue, and what the unvisited messages may add to it.
  abbrev left : Search → ℕ
  left w = length w.queue + pending w.visited s.messages

  follow-left :
      (id : String) (w w' : Search) (msg : Dict) (r : Result (List String))
      → width_of r + pending (id ∷ w.visited) s.messages ≤ pending w.visited s.messages
      → follow id w msg r ≡ ok w'
      → left w' ≤ left w
  follow-left id w w' msg (raise e) le h = cc
  follow-left id w w' msg (ok refs) le h =
      let new = unvisited (id ∷ w.visited) refs in
      let same : ◌≡◌ {A = Search}
          (record {
            visited = id ∷ w.visited;
            queue = w.queue ++ new;
            chain = w.chain ++ (msg ∷ []);
          })
          w' =
        ground (arith, h) in
      subst (λ (x : Search). left x ≤ left w) same
        (omega (arith, le, length-append w.queue new, length-unvisited (id ∷ w.visited) refs))

  visit_message-left :
      (id : String) (w w' : Search) (o : Option Dict)
      → filled (load_message id s) ≡ o
      → contains w.visited id ≡ false
      → visit_message id w o ≡ ok w'
      → left w' ≤ left w
  unfolding load_message
  visit_message-left id w w' none e0 new h =
      let same : ◌≡◌ {A = Search} (record w { visited = id ∷ w.visited }) w' = ground (arith, h) in
      subst (λ (x : Search). left x ≤ left w) same
        (omega (arith, pending-le id w.visited s.messages))
  visit_message-left id w w' (some msg) e0 new h =
      follow-left id w w' msg (refs_of (get msg "refs"))
        (pending-visit id w.visited msg s.messages (filled-eq-some (load_message id s) msg e0)
          (visits-contains w.visited id ∙ new))
        h

  visit-left : (id : String) (w w' : Search) → visit s id w ≡ ok w' → left w' ≤ left w
  unfolding visit
  visit-left id w w' h = elim (Bool-cases (contains w.visited id)) [
    | inl old ↦
        let same : w ≡ w' = ground (arith, old, h) in
        subst (λ (x : Search). left x ≤ left w) same (omega arith)
    | inr new ↦ visit_message-left id w w' (filled (load_message id s)) refl new (simp new at h)
  ]

  returned :
      (r : Result Search) (go : Search → Option (Result (List Dict)))
      → ((w : Search) → r ≡ ok w → go w ≢ none)
      → elim r [ raise e ↦ some (raise e) | ok w ↦ go w ] ≢ none
  returned (raise e) go h e0 = cc
  returned (ok w) go h e0 = h w refl e0

  search_from-returns :
      (fuel : ℕ) (queue : List String) (w : Search)
      → length queue + pending w.visited s.messages < fuel
      → search_from fuel s queue w ≢ none
  unfolding search_from length
  search_from-returns zero queue w enough h = absurd (omega arith)
  search_from-returns (suc fuel) [] w enough h = cc
  search_from-returns (suc fuel) (id ∷ queue) w enough h =
      returned (visit s id (take_off w queue)) (λ w'. search_from fuel s w'.queue w')
        (λ w' e0.
          search_from-returns fuel w'.queue w'
            (omega (arith, visit-left id (take_off w queue) w' e0)))
        h

  -- For every store, also one whose messages refer to each other in a circle, the walk from a message
  -- comes to an end, with the chain or with the exception that a malformed reference raises.
  pub get_causal_chain-returns : (msg_id : String) → get_causal_chain msg_id s ≢ none
  unfolding get_causal_chain length
  get_causal_chain-returns msg_id =
      search_from-returns (suc (suc (references s.messages))) (msg_id ∷ [])
        (record { visited = []; queue = msg_id ∷ []; chain = [] })
        (omega (arith, pending-none s.messages))
