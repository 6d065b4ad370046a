-- ===== src/Stream/Hub.antt =====
-- The hub of hub/internal/chatstream/hub.go: chats, their runs and their subscriptions. A
-- subscription is an index into the list of all that were ever made, which stands for its pointer.
pub mod Replay
pub mod Publishing
pub mod Resume
pub mod Trace
use mcp_switchboard.Prelude.{
  ℕ, zero, suc, ◌+◌, ◌-◌, Bool, true, false, not, ◌&&◌, ◌||◌, List, [], ◌∷◌, ◌++◌, Option, none,
  some, Text, Map, get, set, delete, text_eq, length, modify, keep, ltb, leb, ◌==◌, if◌then◌else◌,
}
use mcp_switchboard.Stream.Frame.{Codec, Options, Frame, nonempty, new_frame, evicted, unknown_run}
use mcp_switchboard.Stream.Ring.{RunState, new_run, retain}
use mcp_switchboard.Stream.Subscription.{
  Subscription, overflowed, offer, offer_list, close_after_drain,
}

pub record ChatState : Type 0 where
  pub subs : List ℕ
  pub runs : Map RunState
  pub run_order : List Text

pub record Hub : Type 0 where
  pub opts : Options
  pub chats : Map ChatState
  pub closed : Bool
  pub subscribers : ℕ
  pub heap : List Subscription

abbrev pub new_chat : ChatState
new_chat = record { subs = []; runs = []; run_order = [] }

abbrev or_new_chat : Option ChatState → ChatState
or_new_chat none = new_chat
or_new_chat (some c) = c

-- `h.chat(id)`: the chat's state, made if there is none.
abbrev pub chat : Hub → Text → ChatState
chat h id = or_new_chat (get id h.chats)

-- `for s := range c.subs { s.offer(f) }`
unfoldable pub offer_all : Codec → Frame → List ℕ → List Subscription → List Subscription
offer_all codec f [] heap = heap
offer_all codec f (i ∷ is) heap = offer_all codec f is (modify i (offer codec f) heap)

-- The run of a chat with this id, made and put last if there is none.
unfoldable pub with_run : Text → ChatState → ChatState × RunState
with_run run_id c = elim (get run_id c.runs) [
  | some r ↦ (c, r)
  | none ↦ (
    record c { runs = set run_id new_run c.runs; run_order = c.run_order ++ (run_id ∷ []) },
    new_run,
  )
]

-- Publish, once it has the chat's state and the run.
unfoldable pub publish_run :
    Codec → Text → Text → Text → Map Text → ChatState × RunState → Hub → Hub
unfolding offer_all
publish_run codec chat_id run_id frame_type payload (c, r) h =
    let f = new_frame codec chat_id run_id r.next_seq frame_type payload in
    if r.ended then record h { chats = set chat_id c h.chats } else record h {
      chats = set chat_id (record c { runs = set run_id (retain h.opts f r) c.runs }) h.chats;
      heap = offer_all codec f c.subs h.heap;
    }

-- The payload is what `toPayload` makes of the event's data.
unfoldable pub publish : Codec → Text → Text → Text → Map Text → Hub → Hub
unfolding with_run publish_run
publish codec chat_id run_id frame_type payload h =
    if h.closed
    then h
    else publish_run codec chat_id run_id frame_type payload (with_run run_id (chat h chat_id)) h

abbrev mark_ended : RunState → RunState
mark_ended r = record r { ended = true; timer = true }

abbrev end_in : Text → Text → ChatState → Option RunState → Hub → Hub
end_in chat_id run_id c none h = h
end_in chat_id run_id c (some r) h = if r.ended then h else record h {
  chats = set chat_id (record c { runs = set run_id (mark_ended r) c.runs }) h.chats;
}

unfoldable pub end_run : Text → Text → Hub → Hub
end_run chat_id run_id h = if h.closed then h else (elim (get chat_id h.chats) [
  | none ↦ h
  | some c ↦ end_in chat_id run_id c (get run_id c.runs) h
])

-- A chat with neither subscriptions nor runs is forgotten.
abbrev pub idle : ChatState → Bool
idle c = leb (length c.subs) 0 && leb (length c.runs) 0

unfoldable pub gc_chat : Text → ChatState → Hub → Hub
gc_chat chat_id c h = record h {
  chats = if idle c then delete chat_id h.chats else set chat_id c h.chats;
}

-- The first occurrence goes.
remove_first : Text → List Text → List Text
remove_first id [] = []
remove_first id (x ∷ xs) = if text_eq x id then xs else x ∷ remove_first id xs

purge_in : Text → Text → Option ChatState → Hub → Hub
unfolding remove_first gc_chat
purge_in chat_id run_id none h = h
purge_in chat_id run_id (some c) h =
    gc_chat chat_id
      (record c { runs = delete run_id c.runs; run_order = remove_first run_id c.run_order }) h

unfoldable pub purge_run : Text → Text → Hub → Hub
unfolding purge_in
purge_run chat_id run_id h = purge_in chat_id run_id (get chat_id h.chats) h

close_subs : List ℕ → List Subscription → List Subscription
close_subs [] heap = heap
close_subs (i ∷ is) heap = close_subs is (modify i close_after_drain heap)

close_chats : Map ChatState → List Subscription → List Subscription
unfolding close_subs
close_chats [] heap = heap
close_chats ((_, c) ∷ chats) heap = close_chats chats (close_subs c.subs heap)

-- Stopping the timers leaves no trace here: the runs go with the chats.
unfoldable pub close : Hub → Hub
unfolding close_chats
close h = record h { closed = true; chats = []; heap = close_chats h.chats h.heap }

-- The text before and after the last colon.
unfoldable pub split_last_colon : Text → Option (Text × Text)
split_last_colon [] = none
split_last_colon (c ∷ cs) = elim (split_last_colon cs) [
  | some (a, b) ↦ some (c ∷ a, b)
  | none ↦ if c == b':' then some ([], cs) else none
]

-- The number of a buffer's first frame is past a bound; an empty buffer has none.
abbrev pub starts_past : ℕ → List Frame → Bool
starts_past k [] = false
starts_past k (f ∷ ring) = ltb k f.seq

-- The loop of `replay` over the runs, in the order they began.
unfoldable pub replay_runs :
    Codec → Map RunState → Text → ℕ → Bool → List Text → Subscription → Subscription × Option Text
replay_runs codec runs run_id seq start [] s = (s, none)
replay_runs codec runs run_id seq start (id ∷ order) s =
    let skip = replay_runs codec runs run_id seq start order s in
    elim (get id runs) [
      | none ↦ skip
      | some r ↦
          let resumed =
            replay_runs codec runs run_id seq true order
              (offer_list codec (keep (λ f. ltb seq f.seq) r.ring) s) in
          let later = replay_runs codec runs run_id seq true order (offer_list codec r.ring s) in
          if text_eq id run_id
          then resumed
          else if not start
          then skip
          else if starts_past 1 r.ring
          then (s, some evicted)
          else later
    ]

-- `replay` from a run and a number that could be read.
unfoldable pub replay_from :
    Codec → ChatState → Text → ℕ → Subscription → Subscription × Option Text
unfolding replay_runs
replay_from codec c run_id seq s = elim (get run_id c.runs) [
  | none ↦ (s, some unknown_run)
  | some r ↦
      if leb r.next_seq seq
      then (s, some unknown_run)
      else if starts_past (seq + 1) r.ring
      then (s, some evicted)
      else replay_runs codec c.runs run_id seq false c.run_order s
]

unfoldable pub replay : Codec → ChatState → Text → Subscription → Subscription × Option Text
unfolding split_last_colon replay_from
replay codec c last_event_id s = elim (split_last_colon last_event_id) [
  | none ↦ (s, some unknown_run)
  | some (run_id, digits) ↦
      if nonempty run_id
      then (elim (codec.parse_seq digits) [
        | none ↦ (s, some unknown_run)
        | some seq ↦ replay_from codec c run_id seq s
      ])
      else (s, some unknown_run)
]

abbrev pub fresh : Hub → Text → Subscription
fresh h chat_id = record {
  chat_id = chat_id;
  budget = h.opts.subscriber_budget;
  queue = [];
  queued = 0;
  closed = false;
  attached = false;
}

-- The subscription joins its chat, at the end of the list of all.
abbrev attach : Text → ChatState → Subscription → Hub → Hub
attach chat_id c s h = record h {
  chats = set chat_id (record c { subs = length h.heap ∷ c.subs }) h.chats;
  subscribers = suc h.subscribers;
  heap = h.heap ++ (record s { attached = true } ∷ []);
}

abbrev joined : Codec → Text → ChatState → Subscription × Option Text → Hub → Hub
joined codec chat_id c (s, none) h = attach chat_id c s h
joined codec chat_id c (s, some reason) h =
    gc_chat chat_id c (record h { heap = h.heap ++ (overflowed codec reason s ∷ []) })

-- The new subscription has the index `length h.heap`.
unfoldable pub subscribe : Codec → Text → Text → Hub → Hub
unfolding replay gc_chat
subscribe codec chat_id last_event_id h =
    let s = fresh h chat_id in
    if h.closed
    then record h { heap = h.heap ++ (record s { closed = true } ∷ []) }
    else let c = chat h chat_id in
      joined codec chat_id c
        (if nonempty last_event_id then replay codec c last_event_id s else (s, none)) h

-- A run in flight whose first frame is still there.
abbrev pub replayable : RunState → Bool
replayable r = elim r.ring [ [] ↦ false | f ∷ _ ↦ not r.ended && f.seq == 1 ]

unfoldable pub replay_active : Codec → Map RunState → List Text → Subscription → Subscription
replay_active codec runs [] s = s
replay_active codec runs (id ∷ order) s = replay_active codec runs order (elim (get id runs) [
  | none ↦ s
  | some r ↦ if replayable r then offer_list codec r.ring s else s
])

unfoldable pub subscribe_active : Codec → Text → Hub → Hub
unfolding replay_active
subscribe_active codec chat_id h =
    let s = fresh h chat_id in
    if h.closed
    then record h { heap = h.heap ++ (record s { closed = true } ∷ []) }
    else let c = chat h chat_id in attach chat_id c (replay_active codec c.runs c.run_order s) h

abbrev detached : Subscription → Subscription
detached s = record s { attached = false; closed = true; queue = []; queued = 0 }

abbrev leave : ℕ → Text → Option ChatState → Hub → Hub
leave i chat_id none h = h
leave i chat_id (some c) h = gc_chat chat_id (record c { subs = keep (λ j. not (j == i)) c.subs }) h

abbrev detach : ℕ → Subscription → Hub → Hub
detach i s h =
    if s.attached
    then leave i s.chat_id (get s.chat_id h.chats) (record h { subscribers = h.subscribers - 1 })
    else h

-- `Close` of the subscription with index i.
unfoldable pub close_subscription : ℕ → Subscription → Hub → Hub
unfolding gc_chat
close_subscription i s h = let h' = detach i s h in record h' { heap = modify i detached h'.heap }
