-- ===== src/Store/Laws.antt =====
-- What is saved is loaded again under its name, and nothing else changes.
use text.Mathlib.TextLemmas.{append_cancel_right}
use pact_passport.Base.{
  write_file, ◌≡◌, ap, refl, String, some, ◌==◌, string_eq, eq_iff, arith, if◌then◌else◌,
  find-write_file,
}
use pact_passport.Json.{Dict, get, str}
use pact_passport.Errors.{ok}
use pact_passport.Store.{
  Store, save_capability, load_capability, json_file, save_message, load_message, save_peer,
  load_peer, peer_file,
}

pub json_file_eq : (s t : String) → (json_file s == json_file t) ≡ (s == t)
unfolding json_file
json_file_eq s t =
    ground (arith, eq_iff s t, eq_iff (json_file s) (json_file t), append_cancel_right s t ".json")

-- A capability that is saved is the one that is loaded under its identifier; the others stay.
pub load_capability-save_capability :
    (cap : Dict) (cap_id : String) (s : Store)
    → get cap "cap_id" ≡ some (str cap_id)
    → (t : Store) × (save_capability cap s ≡ ok t)
      × ((other : String)
          → load_capability other t
            ≡ (if cap_id == other then some cap else load_capability other s))
unfolding save_capability load_capability
load_capability-save_capability cap cap_id s named = (
  record s { capabilities = write_file s.capabilities (json_file cap_id) cap },
  rw named,
  λ other.
      rw
        (
          find-write_file s.capabilities (json_file cap_id) cap (json_file other),
          json_file_eq cap_id other,
        )
        refl,
)

-- Loading a capability depends on the capabilities only.
pub load_capability_eq :
    (cap_id : String) (s t : Store)
    → t.capabilities ≡ s.capabilities
    → load_capability cap_id t ≡ load_capability cap_id s
unfolding load_capability
load_capability_eq cap_id s t h = ap (λ c. load_capability cap_id (record s { capabilities = c })) h

pub load_message-save_message :
    (msg : Dict) (id : String) (s : Store)
    → get msg "id" ≡ some (str id)
    → (t : Store) × (save_message msg s ≡ ok t)
      × ((other : String)
          → load_message other t ≡ (if id == other then some msg else load_message other s))
unfolding save_message load_message
load_message-save_message msg id s named = (
  record s { messages = write_file s.messages (json_file id) msg },
  rw named,
  λ other.
      rw (find-write_file s.messages (json_file id) msg (json_file other), json_file_eq id other)
        refl,
)

pub load_peer-save_peer :
    (agent_id : String) (doc : Dict) (s : Store) (other : String)
    → load_peer other (save_peer agent_id doc s)
      ≡ (if peer_file agent_id == peer_file other then some doc else load_peer other s)
unfolding save_peer load_peer
load_peer-save_peer agent_id doc s other =
    find-write_file s.peers (peer_file agent_id) doc (peer_file other)
