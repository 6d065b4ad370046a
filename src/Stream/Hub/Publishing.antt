-- ===== src/Stream/Hub/Publishing.antt =====
-- Every operation of hub/internal/chatstream/hub.go keeps the buffer of every run in order.
use mcp_switchboard.Prelude.{
  ℕ, ◌≡◌, refl, inl, inr, Option, none, some, arith, Text, Map, get, set, delete, get-set,
  get-delete, text_eq, Bool-cases, Option-cases, if_ind, ◌-◌, subst,
}
use mcp_switchboard.Stream.Frame.{Codec, Options, new_frame}
use mcp_switchboard.Stream.Ring.{RunState, new_run}
use mcp_switchboard.Stream.Ring.Bounds.{RingOk, retain-RingOk, new_run-RingOk}
use mcp_switchboard.Stream.Subscription.{Subscription}
use mcp_switchboard.Stream.Hub.{
  Hub, ChatState, chat, with_run, publish, publish_run, end_run, purge_run, gc_chat, idle,
  subscribe, subscribe_active, close_subscription, mark_ended, end_in, purge_in, joined, detach,
  leave, replay_active, fresh,
}

abbrev pub RunsSound : Options → Map RunState → Type 0
RunsSound o runs = (id : Text) (r : RunState) → get id runs ≡ some r → RingOk o r

abbrev pub ChatsSound : Options → Map ChatState → Type 0
ChatsSound o chats = (id : Text) (c : ChatState) → get id chats ≡ some c → RunsSound o c.runs

some_eq {ℓ} : {A : Type ℓ} (P : A → Type 0) (x y : A) → some x ≡ some y → P x → P y
some_eq P x y e p = subst P (cc) p

RunsSound-set :
    (o : Options) (runs : Map RunState) (id : Text) (r : RunState)
    → RingOk o r
    → RunsSound o runs
    → RunsSound o (set id r runs)
RunsSound-set o runs id r ok v j q e = elim (Bool-cases (text_eq id j)) [
  | inl same ↦ some_eq (RingOk o) r q (rw (get-set id j r runs, same) at e) ok
  | inr other ↦ v j q (rw (get-set id j r runs, other) at e)
]

ChatsSound-set :
    (o : Options) (chats : Map ChatState) (id : Text) (c : ChatState)
    → RunsSound o c.runs
    → ChatsSound o chats
    → ChatsSound o (set id c chats)
ChatsSound-set o chats id c ok v j q e = elim (Bool-cases (text_eq id j)) [
  | inl same ↦ some_eq (λ d. RunsSound o d.runs) c q (rw (get-set id j c chats, same) at e) ok
  | inr other ↦ v j q (rw (get-set id j c chats, other) at e)
]

RunsSound-delete :
    (o : Options) (runs : Map RunState) (id : Text)
    → RunsSound o runs
    → RunsSound o (delete id runs)
RunsSound-delete o runs id v j q e = elim (Bool-cases (text_eq id j)) [
  | inl same ↦ absurd (ground (arith, get-delete id j runs))
  | inr other ↦ v j q (rw (get-delete id j runs, other) at e)
]

ChatsSound-delete :
    (o : Options) (chats : Map ChatState) (id : Text)
    → ChatsSound o chats
    → ChatsSound o (delete id chats)
ChatsSound-delete o chats id v j q e = elim (Bool-cases (text_eq id j)) [
  | inl same ↦ absurd (ground (arith, get-delete id j chats))
  | inr other ↦ v j q (rw (get-delete id j chats, other) at e)
]

-- The options are the hub's, and every run's buffer is in order.
pub record IsSound (o : Options) (h : Hub) : Type 0 where
  pub same : h.opts ≡ o
  pub runs : ChatsSound o h.chats

with_run-Sound :
    (o : Options) (run_id : Text) (c : ChatState)
    → RunsSound o c.runs
    → RunsSound o (with_run run_id c).0.runs × RingOk o (with_run run_id c).1
unfolding with_run
with_run-Sound o run_id c v = elim (Option-cases (get run_id c.runs)) [
  | inl e ↦
      rw (e, with_run)
        (RunsSound-set o c.runs run_id new_run (new_run-RingOk o) v, new_run-RingOk o)
  | inr (r, e) ↦ rw (e, with_run) (v, v run_id r e)
]

seq-new_frame :
    (codec : Codec) (chat_id run_id : Text) (n : ℕ) (typ : Text) (payload : Map Text)
    → (new_frame codec chat_id run_id n typ payload).seq ≡ n
unfolding new_frame
seq-new_frame codec chat_id run_id n typ payload = refl

chat-Sound : (o : Options) (h : Hub) (id : Text) → IsSound o h → RunsSound o (chat h id).runs
chat-Sound o h id v = elim (Option-cases (get id h.chats)) [
  | inl e ↦ rw e (λ j q f. absurd (unfold get in cc))
  | inr (c, e) ↦ rw e (v.runs id c e)
]

publish_run-IsSound :
    (codec : Codec) (o : Options) (chat_id run_id typ : Text) (payload : Map Text) (c : ChatState)
    (r : RunState) (h : Hub)
    → RunsSound o c.runs
    → RingOk o r
    → IsSound o h
    → IsSound o (publish_run codec chat_id run_id typ payload (c, r) h)
unfolding publish_run
publish_run-IsSound codec o chat_id run_id typ payload c r h ok w v =
    if_ind (IsSound o) r.ended _ _
      (record { same = v.same; runs = ChatsSound-set o h.chats chat_id c ok v.runs })
      (record {
        same = v.same;
        runs =
            ChatsSound-set o h.chats chat_id _
              (RunsSound-set o c.runs run_id _
                (rw v.same (
                  retain-RingOk o _ r (seq-new_frame codec chat_id run_id r.next_seq typ payload)
                    w))
                ok)
              v.runs;
      })

pub publish-IsSound :
    (codec : Codec) (o : Options) (chat_id run_id typ : Text) (payload : Map Text) (h : Hub)
    → IsSound o h
    → IsSound o (publish codec chat_id run_id typ payload h)
unfolding publish
publish-IsSound codec o chat_id run_id typ payload h v =
    let (ok, w) = with_run-Sound o run_id (chat h chat_id) (chat-Sound o h chat_id v) in
    if_ind (IsSound o) h.closed _ _ v (
      publish_run-IsSound codec o chat_id run_id typ payload (with_run run_id (chat h chat_id)).0
        (with_run run_id (chat h chat_id)).1 h ok w v)

mark_ended-RingOk : (o : Options) (r : RunState) → RingOk o r → RingOk o (mark_ended r)
mark_ended-RingOk o r v = record {
  first = v.first;
  positive = v.positive;
  numbered = v.numbered;
  counted = v.counted;
  bounded = v.bounded;
  held = v.held;
}

pub end_run-IsSound :
    (o : Options) (chat_id run_id : Text) (h : Hub)
    → IsSound o h
    → IsSound o (end_run chat_id run_id h)
unfolding end_run
end_run-IsSound o chat_id run_id h v =
    if_ind (IsSound o) h.closed _ _ v (known (get chat_id h.chats) (v.runs chat_id))
  where
    ending :
        (c : ChatState) (m : Option RunState)
        → RunsSound o c.runs
        → ((r : RunState) → m ≡ some r → RingOk o r)
        → IsSound o (end_in chat_id run_id c m h)
    ending c none ok w = v
    ending c (some r) ok w = if_ind (IsSound o) r.ended _ _ v (record {
      same = v.same;
      runs =
          ChatsSound-set o h.chats chat_id _
            (RunsSound-set o c.runs run_id _ (mark_ended-RingOk o r (w r refl)) ok) v.runs;
    })

    known :
        (m : Option ChatState)
        → ((c : ChatState) → m ≡ some c → RunsSound o c.runs)
        → IsSound o (elim m [ none ↦ h | some c ↦ end_in chat_id run_id c (get run_id c.runs) h ])
    known none w = v
    known (some c) w = ending c (get run_id c.runs) (w c refl) (w c refl run_id)

gc_chat-IsSound :
    (o : Options) (id : Text) (c : ChatState) (h : Hub)
    → RunsSound o c.runs
    → IsSound o h
    → IsSound o (gc_chat id c h)
unfolding gc_chat
gc_chat-IsSound o id c h ok v = record {
  same = v.same;
  runs =
      if_ind (ChatsSound o) (idle c) _ _ (ChatsSound-delete o h.chats id v.runs)
        (ChatsSound-set o h.chats id c ok v.runs);
}

pub purge_run-IsSound :
    (o : Options) (chat_id run_id : Text) (h : Hub)
    → IsSound o h
    → IsSound o (purge_run chat_id run_id h)
unfolding purge_run
purge_run-IsSound o chat_id run_id h v = known (get chat_id h.chats) (v.runs chat_id)
  where
    known :
        (m : Option ChatState)
        → ((c : ChatState) → m ≡ some c → RunsSound o c.runs)
        → IsSound o (purge_in chat_id run_id m h)
    known none w = v
    known (some c) w = gc_chat-IsSound o chat_id _ h (RunsSound-delete o c.runs run_id (w c refl)) v

joined-IsSound :
    (codec : Codec) (o : Options) (chat_id : Text) (c : ChatState) (m : Subscription × Option Text)
    (h : Hub)
    → RunsSound o c.runs
    → IsSound o h
    → IsSound o (joined codec chat_id c m h)
joined-IsSound codec o chat_id c (s, none) h ok v = record {
  same = v.same;
  runs = ChatsSound-set o h.chats chat_id _ ok v.runs;
}
joined-IsSound codec o chat_id c (s, some reason) h ok v =
    gc_chat-IsSound o chat_id c _ ok (record { same = v.same; runs = v.runs })

pub subscribe-IsSound :
    (codec : Codec) (o : Options) (chat_id last : Text) (h : Hub)
    → IsSound o h
    → IsSound o (subscribe codec chat_id last h)
unfolding subscribe
subscribe-IsSound codec o chat_id last h v =
    if_ind (IsSound o) h.closed _ _ (record { same = v.same; runs = v.runs })
      (joined-IsSound codec o chat_id (chat h chat_id) _ h (chat-Sound o h chat_id v) v)

pub subscribe_active-IsSound :
    (codec : Codec) (o : Options) (chat_id : Text) (h : Hub)
    → IsSound o h
    → IsSound o (subscribe_active codec chat_id h)
unfolding subscribe_active
subscribe_active-IsSound codec o chat_id h v =
    if_ind (IsSound o) h.closed _ _ (record { same = v.same; runs = v.runs })
      (joined-IsSound codec o chat_id (chat h chat_id)
        (
          replay_active codec (chat h chat_id).runs (chat h chat_id).run_order (fresh h chat_id),
          none,
        )
        h (chat-Sound o h chat_id v) v)

pub close_subscription-IsSound :
    (o : Options) (i : ℕ) (s : Subscription) (h : Hub)
    → IsSound o h
    → IsSound o (close_subscription i s h)
unfolding close_subscription
close_subscription-IsSound o i s h v =
    let w : IsSound o (detach i s h) =
      if_ind (IsSound o) s.attached _ _ (leaving (get s.chat_id h.chats) (v.runs s.chat_id)) v in
    record { same = w.same; runs = w.runs }
  where
    leaving :
        (m : Option ChatState)
        → ((c : ChatState) → m ≡ some c → RunsSound o c.runs)
        → IsSound o (leave i s.chat_id m (record h { subscribers = h.subscribers - 1 }))
    leaving none w = record { same = v.same; runs = v.runs }
    leaving (some c) w =
        gc_chat-IsSound o s.chat_id _ _ (w c refl) (record { same = v.same; runs = v.runs })
