-- ===== src/Notification/Socket/Moves.antt =====
-- Where the messages for a client are: in its queue, in hand, and written.
use equilibra.Common.{
  ℕ, ◌<◌, ◌≡◌, refl, sym, ap, ◌∙◌, Bool, true, false, ◌&&◌, ◌||◌, not, some, List, [], ◌∷◌, ◌++◌,
  length, ltb, ◌==◌, arith, if◌then◌else◌,
}
use mathlib.Core.List.{append_assoc, append-nil}
use equilibra.Common.Int.{ℤ}
use equilibra.Events.Document.{Json}
use equilibra.Notification.Hub.{
  Hub, Status, Step, capacity, disconnect, register, unregister, receive, rest_of, close_all, step,
}
use equilibra.Notification.Hub.Table.{entries}
use equilibra.Notification.Hub.Invariant.{disconnect_all-heap}
use equilibra.Notification.Hub.Sending.{deliver-heap}
use equilibra.Notification.Socket.{
  Place, selecting, writing, pinging, closing, returned, Signal, takes_message, ticks, takes_done,
  cancelled, ends, meanwhile, Connection, leave, take_message, take_done, select_case, turn_at,
  turn,
}

-- A signal of others: only the client's own handler reads its channel.
abbrev pub IsOthers : ℕ → Signal → Type 0
IsOthers c (meanwhile (Step.receives d)) = (d == c) ≡ false
IsOthers c s = Unit

-- The messages that a step puts into the client's queue.
abbrev pub queued_by : ℕ → Step → Hub → List Json
queued_by c (Step.delivers a msg queues d) h =
    let o = h.heap c in
    if (d == c) && ltb (length o.send) capacity && (not o.done || queues) then msg ∷ [] else []
queued_by c e h = []

abbrev pub queued_in : Signal → Connection → List Json
queued_in (meanwhile e) k = queued_by k.client e k.hub
queued_in s k = []

-- The message that is being written, or was when the write failed.
abbrev pub in_hand : Place → List Json
in_hand (writing m) = m ∷ []
in_hand (returned unwritten) = unwritten
in_hand p = []

abbrev pub messages_of : Connection → List Json
messages_of k = k.written ++ (in_hand k.place ++ (k.hub.heap k.client).send)

pub step-queued :
    (c : ℕ) (e : Step) (h : Hub)
    → IsOthers c (meanwhile e)
    → c < h.next
    → ((step e h).heap c).send ≡ (h.heap c).send ++ queued_by c e h
unfolding step register unregister receive close_all disconnect
step-queued c (Step.registers a) h is lt = ground (arith, append-nil (h.heap c).send)
step-queued c (Step.unregisters a q d) h is lt = ground (arith, append-nil (h.heap c).send)
step-queued c (Step.delivers a msg queues d) h is lt =
    ap (λ o. o.send) (deliver-heap a msg queues d c h) ∙ ground (arith, append-nil (h.heap c).send)
step-queued c (Step.receives d) h is lt = ground (arith, append-nil (h.heap c).send)
step-queued c Step.closes_all h is lt =
    (disconnect_all-heap (entries h.clients) h.heap c).0 ∙ sym (append-nil (h.heap c).send)

module _ (a : ℤ) where
  abbrev pub queued : List Signal → Connection → List Json
  queued [] k = []
  queued (s ∷ signals) k = queued_in s k ++ queued signals (turn a s k)

  -- A turn that is not a step of others moves messages only from the queue to the writer's hand
  -- and on to the connection.
  pub record Kept (k k' : Connection) : Type 0 where
    pub client : k'.client ≡ k.client
    pub next : k'.hub.next ≡ k.hub.next
    pub messages : messages_of k' ≡ messages_of k

  pub Kept-same : (k : Connection) → Kept k k
  Kept-same k = record { client = refl; next = refl; messages = refl }

  -- The client's own step takes these messages out of its queue, and the place has them in hand.
  in_hand-Kept :
      (k : Connection) (h : Hub) (p : Place) (ms : List Json)
      → h.next ≡ k.hub.next
      → in_hand k.place ++ ms ≡ in_hand p
      → (k.hub.heap k.client).send ≡ ms ++ (h.heap k.client).send
      → Kept k (record k { hub = h; place = p })
  in_hand-Kept k h p ms same hand e = record {
    client = refl;
    next = same;
    messages =
        ap (λ l. k.written ++ l)
          (ap (λ l. l ++ (h.heap k.client).send) (sym hand)
            ∙ append_assoc (in_hand k.place) ms (h.heap k.client).send
            ∙ ap (λ l. in_hand k.place ++ l) (sym e));
  }

  leave-Kept : (k : Connection) (p : Place) → k.place ≡ p → Kept k (leave a (in_hand p) k)
  unfolding unregister disconnect
  leave-Kept k p h =
      in_hand-Kept k (unregister a Status.normal_closure k.client k.hub) (returned (in_hand p)) []
        refl (append-nil (in_hand k.place) ∙ ap in_hand h) (ground arith)

  place-Kept :
      (k : Connection) (p q : Place)
      → k.place ≡ p
      → in_hand p ≡ in_hand q
      → Kept k (record k { place = q })
  place-Kept k p q h e =
      in_hand-Kept k k.hub q [] refl (append-nil (in_hand k.place) ∙ ap in_hand h ∙ e) refl

  take_message-Kept :
      (ms : List Json) (k : Connection)
      → k.place ≡ selecting
      → (k.hub.heap k.client).send ≡ ms
      → Kept k (take_message a ms k)
  unfolding receive
  take_message-Kept [] k h e = Kept-same k
  take_message-Kept (m ∷ ms) k h e =
      in_hand-Kept k (receive k.client k.hub) (writing m) (m ∷ []) refl
        (ap (λ p. in_hand p ++ m ∷ []) h) (e ∙ ap (λ l. m ∷ rest_of l) (sym e) ∙ ground arith)

  take_done-Kept : (k : Connection) → k.place ≡ selecting → Kept k (take_done a k)
  take_done-Kept k h = by_done (k.hub.heap k.client).done
    where
      closes :
          Kept k (record k { place = closing; closed_with = some (k.hub.heap k.client).reason })
      closes =
          let same = place-Kept k selecting closing h refl in
          record { client = refl; next = refl; messages = same.messages }

      by_done :
          (b : Bool)
          → Kept k (
              if b
              then record k { place = closing; closed_with = some (k.hub.heap k.client).reason }
              else k)
      by_done true = closes
      by_done false = Kept-same k

  pub select_case-Kept :
      (s : Signal) (k : Connection) → k.place ≡ selecting → Kept k (select_case a s k)
  select_case-Kept takes_message k h = take_message-Kept (k.hub.heap k.client).send k h refl
  select_case-Kept ticks k h = place-Kept k selecting pinging h refl
  select_case-Kept takes_done k h = take_done-Kept k h
  select_case-Kept cancelled k h = leave-Kept k selecting h
  select_case-Kept (ends b) k h = Kept-same k
  select_case-Kept (meanwhile e) k h = Kept-same k

  pub ends-Kept :
      (p : Place) (b : Bool) (k : Connection) → k.place ≡ p → Kept k (turn_at a p (ends b) k)
  ends-Kept selecting b k h = Kept-same k
  ends-Kept (writing m) true k h = record {
    client = refl;
    next = refl;
    messages =
        append_assoc k.written (m ∷ []) (k.hub.heap k.client).send
        ∙ ap (λ p. k.written ++ (in_hand p ++ (k.hub.heap k.client).send)) (sym h);
  }
  ends-Kept (writing m) false k h = leave-Kept k (writing m) h
  ends-Kept pinging true k h = place-Kept k pinging selecting h refl
  ends-Kept pinging false k h = leave-Kept k pinging h
  ends-Kept closing b k h = leave-Kept k closing h
  ends-Kept (returned ms) b k h = Kept-same k
