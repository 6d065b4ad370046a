-- ===== src/Stream/Hub/Trace.antt =====
-- Any history of a hub, as a list of the operations of hub/internal/chatstream/hub.go. The lock of the
-- hub makes each of them one step.
use mcp_switchboard.Prelude.{
  ℕ, ◌≡◌, refl, false, List, [], ◌∷◌, Option, none, some, Text, Map, get, get_elem?,
}
use mcp_switchboard.Stream.Frame.{Codec, Options, with_defaults}
use mcp_switchboard.Stream.Ring.{RunState}
use mcp_switchboard.Stream.Ring.Bounds.{RingOk}
use mcp_switchboard.Stream.Subscription.{Subscription}
use mcp_switchboard.Stream.Hub.{
  Hub, ChatState, publish, end_run, purge_run, close, subscribe, subscribe_active,
  close_subscription,
}
use mcp_switchboard.Stream.Hub.Publishing.{
  IsSound, publish-IsSound, end_run-IsSound, purge_run-IsSound, subscribe-IsSound,
  subscribe_active-IsSound, close_subscription-IsSound,
}

-- NewHubWithOptions
unfoldable pub new_hub : Options → Hub
unfolding with_defaults
new_hub o = record {
  opts = with_defaults o;
  chats = [];
  closed = false;
  subscribers = 0;
  heap = [];
}

pub data Op : Type 0 where
  publishes : Text → Text → Text → Map Text → Op
  ends : Text → Text → Op
  purges : Text → Text → Op
  subscribes : Text → Text → Op
  subscribes_active : Text → Op
  leaves : ℕ → Op
  closes : Op

abbrev close_at : ℕ → Option Subscription → Hub → Hub
close_at i none h = h
close_at i (some s) h = close_subscription i s h

unfoldable pub step : Codec → Op → Hub → Hub
step codec (publishes chat_id run_id typ payload) h = publish codec chat_id run_id typ payload h
step codec (ends chat_id run_id) h = end_run chat_id run_id h
step codec (purges chat_id run_id) h = purge_run chat_id run_id h
step codec (subscribes chat_id last) h = subscribe codec chat_id last h
step codec (subscribes_active chat_id) h = subscribe_active codec chat_id h
step codec (leaves i) h = close_at i (get_elem? h.heap i) h
step codec closes h = close h

unfoldable pub steps : Codec → List Op → Hub → Hub
unfolding step
steps codec [] h = h
steps codec (x ∷ xs) h = steps codec xs (step codec x h)

step-IsSound :
    (codec : Codec) (o : Options) (x : Op) (h : Hub) → IsSound o h → IsSound o (step codec x h)
unfolding step close
step-IsSound codec o (publishes chat_id run_id typ payload) h v =
    publish-IsSound codec o chat_id run_id typ payload h v
step-IsSound codec o (ends chat_id run_id) h v = end_run-IsSound o chat_id run_id h v
step-IsSound codec o (purges chat_id run_id) h v = purge_run-IsSound o chat_id run_id h v
step-IsSound codec o (subscribes chat_id last) h v = subscribe-IsSound codec o chat_id last h v
step-IsSound codec o (subscribes_active chat_id) h v = subscribe_active-IsSound codec o chat_id h v
step-IsSound codec o (leaves i) h v = leaving (get_elem? h.heap i)
  where
    leaving : (m : Option Subscription) → IsSound o (close_at i m h)
    leaving none = v
    leaving (some s) = close_subscription-IsSound o i s h v
step-IsSound codec o closes h v = record {
  same = v.same;
  runs = λ id c e. absurd (unfold get in cc);
}

steps-IsSound :
    (codec : Codec) (o : Options) (xs : List Op) (h : Hub)
    → IsSound o h
    → IsSound o (steps codec xs h)
unfolding steps
steps-IsSound codec o [] h v = v
steps-IsSound codec o (x ∷ xs) h v =
    steps-IsSound codec o xs (step codec x h) (step-IsSound codec o x h v)

new_hub-IsSound : (o : Options) → IsSound (with_defaults o) (new_hub o)
unfolding new_hub
new_hub-IsSound o = record { same = refl; runs = λ id c e. absurd (unfold get in cc) }

-- After any history, every run of every chat has consecutive numbers in its buffer, the last of them
-- just before its next number, an exact count of bytes, and a buffer within both limits or of one
-- frame.
pub steps-RingOk :
    (codec : Codec) (o : Options) (xs : List Op) (chat_id run_id : Text) (c : ChatState)
    (r : RunState)
    → get chat_id (steps codec xs (new_hub o)).chats ≡ some c
    → get run_id c.runs ≡ some r
    → RingOk (with_defaults o) r
steps-RingOk codec o xs chat_id run_id c r e f =
    (steps-IsSound codec (with_defaults o) xs (new_hub o) (new_hub-IsSound o)).runs chat_id c e
      run_id r f
