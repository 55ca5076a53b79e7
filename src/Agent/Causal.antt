-- ===== src/Agent/Causal.antt =====
-- get_causal_chain of agent.py: the walk along the references of the stored messages.
pub mod Terminates
use pact_passport.Base.{
  ℕ, zero, suc, ◌+◌, Bool, true, false, String, Option, none, some, List, [], ◌∷◌, ◌++◌, ◌==◌,
  string_eq, if◌then◌else◌, contains, length,
}
use pact_passport.Json.{Value, Dict, str, arr, obj, end, field, get}
use pact_passport.Errors.{Result, ok, raise, type_error}
use pact_passport.Message.Dicts.{texts_of}
use pact_passport.Store.{Files, Store, load_message}
use pact_passport.Agent.Peers.{filled}

-- What iterating over a text or a dict gives: its characters, or its keys.
abbrev pub characters : String → List String
characters String.[] = []
characters (String.◌∷◌ c s) = String.◌∷◌ c String.[] ∷ characters s

abbrev pub field_names : Dict → List String
field_names end = []
field_names (field k v d) = k ∷ field_names d

-- msg.get("refs", []), iterated over. An item of a list that is no text raises TypeError here.
abbrev pub refs_of : Option Value → Result (List String)
refs_of none = ok []
refs_of (some (str s)) = ok (characters s)
refs_of (some (obj d)) = ok (field_names d)
refs_of (some (arr vs)) = texts_of vs
refs_of (some v) = raise type_error

-- The references that have not been visited.
unfoldable pub unvisited : List String → List String → List String
unvisited visited [] = []
unvisited visited (r ∷ rs) =
    let rest = unvisited visited rs in if contains visited r then rest else r ∷ rest

-- The loop's variables.
pub record Search : Type 0 where
  pub visited : List String
  pub queue : List String
  pub chain : List Dict

abbrev pub follow : String → Search → Dict → Result (List String) → Result Search
follow id w msg (raise e) = raise e
follow id w msg (ok refs) = ok (record {
  visited = id ∷ w.visited;
  queue = w.queue ++ unvisited (id ∷ w.visited) refs;
  chain = w.chain ++ (msg ∷ []);
})

abbrev pub visit_message : String → Search → Option Dict → Result Search
visit_message id w none = ok (record w { visited = id ∷ w.visited })
visit_message id w (some msg) = follow id w msg (refs_of (get msg "refs"))

-- One round of the loop, with the identifier that has been taken off the queue.
unfoldable pub visit : Store → String → Search → Result Search
unfolding unvisited
visit s id w =
    if contains w.visited id then ok w else visit_message id w (filled (load_message id s))

-- `while queue`; `none` means that the fuel ran out.
abbrev pub take_off : Search → List String → Search
take_off w queue = record w { queue = queue }

unfoldable pub search_from : ℕ → Store → List String → Search → Option (Result (List Dict))
unfolding visit
search_from zero s queue w = none
search_from (suc fuel) s [] w = some (ok w.chain)
search_from (suc fuel) s (id ∷ queue) w = elim (visit s id (take_off w queue)) [
  | raise e ↦ some (raise e)
  | ok w' ↦ search_from fuel s w'.queue w'
]

-- The number of references of a message, and of all stored messages.
abbrev pub width_of : Result (List String) → ℕ
width_of (raise e) = 0
width_of (ok refs) = length refs

unfoldable pub references : Files → ℕ
references [] = 0
references ((name, msg) ∷ fs) = width_of (refs_of (get msg "refs")) + references fs

-- Each stored message is expanded once at most, so that this fuel is enough.
unfoldable pub get_causal_chain : String → Store → Option (Result (List Dict))
unfolding search_from references
get_causal_chain msg_id s =
    search_from (suc (suc (references s.messages))) s (msg_id ∷ [])
      (record { visited = []; queue = msg_id ∷ []; chain = [] })
