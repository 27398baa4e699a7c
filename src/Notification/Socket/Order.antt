-- ===== src/Notification/Socket/Order.antt =====
-- What the client is written is what the hub queued for it, in order.
use equilibra.Common.{◌<◌, ◌≡◌, refl, sym, ap, subst, ◌∙◌, List, [], ◌∷◌, ◌++◌, All, arith}
use mathlib.Core.List.{append_assoc, append-nil}
use equilibra.Common.Int.{ℤ}
use equilibra.Notification.Hub.{Hub, Step, register, step}
use equilibra.Notification.Socket.Turns.{step-next, at-rule}
use equilibra.Notification.Socket.{
  Signal, takes_message, ticks, takes_done, cancelled, ends, meanwhile, Connection, turn_at, turn,
  loop, connect,
}
use equilibra.Notification.Socket.Moves.{
  IsOthers, queued_by, queued_in, in_hand, messages_of, queued, step-queued, Kept, Kept-same,
  select_case-Kept, ends-Kept,
}

module _ (a : ℤ) where
  -- What one turn does to the messages.
  record Turned (k : Connection) (s : Signal) (k' : Connection) : Type 0 where
    pub client : k'.client ≡ k.client
    pub next : k'.client < k'.hub.next
    pub messages : messages_of k' ≡ messages_of k ++ queued_in s k

  Kept-Turned :
      (k k' : Connection) (s : Signal)
      → k.client < k.hub.next
      → queued_in s k ≡ []
      → Kept a k k'
      → Turned k s k'
  Kept-Turned k k' s lt e v = record {
    client = v.client;
    next = omega (arith, lt, v.client, v.next);
    messages = v.messages ∙ sym (ap (λ l. messages_of k ++ l) e ∙ append-nil (messages_of k));
  }

  step-Turned :
      (e : Step) (k : Connection)
      → k.client < k.hub.next
      → IsOthers k.client (meanwhile e)
      → Turned k (meanwhile e) (record k { hub = step e k.hub })
  step-Turned e k lt is = record {
    client = refl;
    next = step-next k.client e k.hub lt;
    messages =
        ap (λ l. k.written ++ (in_hand k.place ++ l)) (step-queued k.client e k.hub is lt)
        ∙ ap (λ l. k.written ++ l)
            (sym (
              append_assoc (in_hand k.place) (k.hub.heap k.client).send
                (queued_by k.client e k.hub)))
        ∙ sym (append_assoc k.written _ (queued_by k.client e k.hub));
  }

  own-Turned :
      (s : Signal) (k : Connection)
      → k.client < k.hub.next
      → queued_in s k ≡ []
      → Turned k s (turn_at a k.place s k)
  own-Turned s k lt e = Kept-Turned k (turn_at a k.place s k) s lt e (
      at-rule a (Kept a k) k.place s k (Kept-same a k) (select_case-Kept a s k)
        (λ b. ends-Kept a k.place b k refl))

  turn-Turned :
      (s : Signal) (k : Connection)
      → k.client < k.hub.next
      → IsOthers k.client s
      → Turned k s (turn a s k)
  unfolding turn
  turn-Turned (meanwhile e) k lt is = step-Turned e k lt is
  turn-Turned takes_message k lt is = own-Turned takes_message k lt refl
  turn-Turned ticks k lt is = own-Turned ticks k lt refl
  turn-Turned takes_done k lt is = own-Turned takes_done k lt refl
  turn-Turned cancelled k lt is = own-Turned cancelled k lt refl
  turn-Turned (ends b) k lt is = own-Turned (ends b) k lt refl

  loop-messages :
      (signals : List Signal) (k : Connection)
      → k.client < k.hub.next
      → All (IsOthers k.client) signals
      → messages_of (loop a signals k) ≡ messages_of k ++ queued a signals k
  unfolding loop
  loop-messages [] k lt is = sym (append-nil (messages_of k))
  loop-messages (s ∷ signals) k lt is =
      let t = turn-Turned s k lt is.0 in
      loop-messages signals (turn a s k) t.next
        (subst (λ c. All (IsOthers c) signals) (sym t.client) is.1)
      ∙ ap (λ l. l ++ queued a signals (turn a s k)) t.messages
      ∙ append_assoc (messages_of k) (queued_in s k) (queued a signals (turn a s k))

  -- From the registration of the client on, whatever the handler meets, when only the handler reads
  -- the client's channel: the messages that the hub puts into the client's queue are, in order, those
  -- written to the connection, then the one that is being written or whose write failed, and then
  -- those that are still in the queue.
  pub loop-connect-in_order :
      (signals : List Signal) (h : Hub)
      → All (IsOthers h.next) signals
      → let k = loop a signals (connect a h) in
        k.written ++ (in_hand k.place ++ (k.hub.heap k.client).send)
        ≡ queued a signals (connect a h)
  unfolding connect register
  loop-connect-in_order signals h is =
      loop-messages signals (connect a h) (omega arith) is ∙ ground arith
