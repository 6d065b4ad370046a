-- ===== src/Chats.antt =====
-- One run at a time on each chat: the parts of submit, finish, cancelRunState and finishQueued in
-- hub/internal/agents/manager.go that keep the maps of runs. Each critical section is one operation.
pub mod Turns
use mcp_switchboard.Prelude.{
  ℕ, Bool, true, false, not, List, [], ◌∷◌, ◌++◌, Option, none, some, Text, Map, get, set, delete,
  keep, any, ◌==◌, if◌then◌else◌,
}

-- A run: its pointer, its agent and its chat.
pub record Run : Type 0 where
  pub id : ℕ
  pub agent : Text
  pub chat : Text

pub record Manager : Type 0 where
  pub runs : List ℕ
  pub by_agent : Map (List ℕ)
  pub chat_active : Map ℕ
  pub chat_queue : Map (List ℕ)

abbrev pub or_nil : Option (List ℕ) → List ℕ
or_nil none = []
or_nil (some q) = q

-- A missing entry and an empty queue are alike to len.
abbrev pub queue_of : Text → Map (List ℕ) → List ℕ
queue_of k m = or_nil (get k m)

-- An entry that is left empty is deleted.
unfoldable pub store : Text → List ℕ → Map (List ℕ) → Map (List ℕ)
store k [] m = delete k m
store k (x ∷ q) m = set k (x ∷ q) m

abbrev pub enrol : Run → Manager → Manager
enrol r m = record m {
  runs = m.runs ++ (r.id ∷ []);
  by_agent = set r.agent (queue_of r.agent m.by_agent ++ (r.id ∷ [])) m.by_agent;
}

-- `submit`, once the run's row is written: the run waits behind the chat's active run, or is that.
unfoldable pub submit : Run → Manager → Manager
submit r m = elim (get r.chat m.chat_active) [
  | none ↦ record (enrol r m) { chat_active = set r.chat r.id m.chat_active }
  | some _ ↦ record (enrol r m) {
    chat_queue = set r.chat (queue_of r.chat m.chat_queue ++ (r.id ∷ [])) m.chat_queue;
  }
]

-- The run leaves the maps: the first section of `finish`, and that of `finishQueued`.
unfoldable pub forget : Run → Manager → Manager
unfolding store
forget r m = record m {
  runs = keep (λ i. not (i == r.id)) m.runs;
  by_agent = store r.agent (keep (λ i. not (i == r.id)) (queue_of r.agent m.by_agent)) m.by_agent;
}

abbrev pub promote_from : Text → List ℕ → Manager → Manager
promote_from chat [] m = record m { chat_active = delete chat m.chat_active }
promote_from chat (next ∷ q) m = record m {
  chat_active = set chat next (delete chat m.chat_active);
  chat_queue = store chat q m.chat_queue;
}

-- The last section of `finish`: the next run of the chat is its active run.
unfoldable pub promote : Text → Manager → Manager
unfolding store
promote chat m = promote_from chat (queue_of chat m.chat_queue) m

unfoldable pub remove : ℕ → List ℕ → List ℕ
remove i [] = []
remove i (x ∷ q) = if x == i then q else x ∷ remove i q

-- The section of `cancelRunState`; a run that was found in the queue is forgotten next.
unfoldable pub cancel : Run → Manager → Manager
unfolding remove store
cancel r m =
    let q = queue_of r.chat m.chat_queue in
    if any (λ i. i == r.id) q
    then record m { chat_queue = store r.chat (remove r.id q) m.chat_queue }
    else m

pub data Op : Type 0 where
  submits forgets cancels : Run → Op
  promotes : Text → Op

unfoldable pub step : Op → Manager → Manager
unfolding submit forget cancel promote
step (submits r) m = submit r m
step (forgets r) m = forget r m
step (cancels r) m = cancel r m
step (promotes chat) m = promote chat m

unfoldable pub steps : List Op → Manager → Manager
unfolding step
steps [] m = m
steps (x ∷ xs) m = steps xs (step x m)

unfoldable pub new : Manager
new = record { runs = []; by_agent = []; chat_active = []; chat_queue = [] }
