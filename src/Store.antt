-- ===== src/Store.antt =====
-- PACTStore of store.py, as far as the agent calls it: the directory of one agent, and the peers. A file
-- holds the value that json.dumps wrote and json.loads reads back. A name is a text: that a separator
-- in an identifier leads to another directory is left out, and so are failing reads and writes.
pub mod Laws
use Prim.Native.String.{◌++◌}
use Prim.Native.Char.{Char, code}
use pact_passport.Base.{
  [], ℕ, zero, suc, String, Option, none, some, List, if◌then◌else◌, find, write_file, contents,
  nat_beq,
}
use pact_passport.Json.{Value, Dict, end, get}
use pact_passport.Errors.{Result, ok, ◌>>=◌}
use pact_passport.Wire.{need_text, text_or}

abbrev pub Files : Type 0
Files = List (String × Dict)

pub record Store : Type 0 where
  pub capabilities : Files
  pub receipts : Files
  pub messages : Files
  pub peers : Files
  pub idempotency_cache : Dict
  pub invocation_counts : List (String × ℕ)

abbrev pub store_start : Store
store_start = record {
  capabilities = [];
  receipts = [];
  messages = [];
  peers = [];
  idempotency_cache = end;
  invocation_counts = [];
}

-- f"{name}.json"
unfoldable pub json_file : String → String
json_file name = name ++ ".json"

-- s.replace(":", c)
unfoldable pub replace_colons : Char → String → String
replace_colons c String.[] = String.[]
replace_colons c (String.◌∷◌ d s) =
    String.◌∷◌ (if nat_beq (code d) b':' then c else d) (replace_colons c s)

-- s[:n]
unfoldable pub first : ℕ → String → String
first zero s = String.[]
first (suc n) String.[] = String.[]
first (suc n) (String.◌∷◌ c s) = String.◌∷◌ c (first n s)

unfoldable pub save_capability : Dict → Store → Result Store
unfolding json_file
save_capability cap s = do
  cap_id ← need_text (get cap "cap_id")
  ok (record s { capabilities = write_file s.capabilities (json_file cap_id) cap })

unfoldable pub load_capability : String → Store → Option Dict
unfolding json_file
load_capability cap_id s = find s.capabilities (json_file cap_id)

unfoldable pub list_capabilities : Store → List Dict
list_capabilities s = contents s.capabilities

-- f"{ts}-{ref}.json", with the colons of the timestamp replaced, and eight characters of the task
unfoldable pub receipt_file : String → String → String
unfolding json_file replace_colons first
receipt_file timestamp task_ref =
    json_file (replace_colons "-" timestamp ++ ("-" ++ first 8 task_ref))

unfoldable pub save_receipt : Dict → Store → Result Store
unfolding receipt_file
save_receipt receipt s = do
  timestamp ← text_or "unknown" (get receipt "timestamp")
  task_ref ← text_or "unknown" (get receipt "task_ref")
  ok (record s { receipts = write_file s.receipts (receipt_file timestamp task_ref) receipt })

unfoldable pub list_receipts : Store → List Dict
list_receipts s = contents s.receipts

unfoldable pub save_message : Dict → Store → Result Store
unfolding json_file
save_message msg s = do
  id ← need_text (get msg "id")
  ok (record s { messages = write_file s.messages (json_file id) msg })

unfoldable pub load_message : String → Store → Option Dict
unfolding json_file
load_message msg_id s = find s.messages (json_file msg_id)

unfoldable pub peer_file : String → String
unfolding json_file replace_colons
peer_file agent_id = json_file (replace_colons "_" agent_id)

unfoldable pub save_peer : String → Dict → Store → Store
unfolding peer_file
save_peer agent_id doc s = record s { peers = write_file s.peers (peer_file agent_id) doc }

unfoldable pub load_peer : String → Store → Option Dict
unfolding peer_file
load_peer agent_id s = find s.peers (peer_file agent_id)

unfoldable pub save_idempotency_cache : Dict → Store → Store
save_idempotency_cache cache s = record s { idempotency_cache = cache }

unfoldable pub load_idempotency_cache : Store → Dict
load_idempotency_cache s = s.idempotency_cache

unfoldable pub save_invocation_counts : List (String × ℕ) → Store → Store
save_invocation_counts counts s = record s { invocation_counts = counts }

unfoldable pub load_invocation_counts : Store → List (String × ℕ)
load_invocation_counts s = s.invocation_counts
