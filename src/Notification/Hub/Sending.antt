-- ===== src/Notification/Hub/Sending.antt =====
-- What `Send` does to each client.
use equilibra.Common.{
  ℕ, ◌≡◌, refl, ap, ◌∙◌, Bool, true, false, ◌&&◌, not, List, [], ◌∷◌, ◌++◌, length, exists, ltb,
  ◌==◌, arith, if◌then◌else◌,
}
use equilibra.Common.Int.{ℤ}
use equilibra.Events.Document.{Json}
use equilibra.Notification.Hub.{
  Hub, Client, Status, capacity, disconnect, unregister, deliver, deliver_all, send,
}
use equilibra.Notification.Hub.Table.{members}
use equilibra.Notification.Hub.Registered.{contains, registered, NoRepeat}
use equilibra.Notification.Hub.Invariant.{IsHub}

-- What one client gets: the message behind its others where there is room, or its disconnection
-- where there is none; a client that is disconnected already may get the message.
abbrev pub after_message : Json → Bool → Client → Client
after_message msg queues o =
    if ltb (length o.send) capacity
    then (if o.done && not queues then o else record o { send = o.send ++ msg ∷ [] })
    else if o.done
    then o
    else record o { done = true; reason = Status.policy_violation }

pub deliver-heap :
    (a : ℤ) (msg : Json) (queues : Bool) (d c : ℕ) (h : Hub)
    → (deliver a msg queues d h).heap c
      ≡ (if d == c then after_message msg queues (h.heap c) else h.heap c)
unfolding deliver unregister disconnect
deliver-heap a msg queues d c h = ground arith

deliver_all-heap :
    (a : ℤ) (msg : Json) (queues : ℕ → Bool) (cs : List ℕ) (c : ℕ) (h : Hub)
    → NoRepeat cs
    → (deliver_all a msg queues cs h).heap c
      ≡ (if contains c cs then after_message msg (queues c) (h.heap c) else h.heap c)
unfolding deliver_all exists
deliver_all-heap a msg queues [] c h k = refl
deliver_all-heap a msg queues (d ∷ ds) c h k =
    let h1 = deliver a msg (queues d) d h in
    deliver_all-heap a msg queues ds c h1 k.1
    ∙ one_more (d == c) (contains c ds) (ground (arith, k.0)) (deliver-heap a msg (queues d) d c h)
  where
    one_more :
        (first later : Bool)
        → (first ≡ true → (later ≡ false) × (d ≡ c))
        → (deliver a msg (queues d) d h).heap c
          ≡ (if first then after_message msg (queues d) (h.heap c) else h.heap c)
        → (if later
            then after_message msg (queues c) ((deliver a msg (queues d) d h).heap c)
            else (deliver a msg (queues d) d h).heap c)
          ≡ (if (if first then true else later)
              then after_message msg (queues c) (h.heap c)
              else h.heap c)
    one_more true true e is = cc (e refl).0
    one_more true false e is = is ∙ ap (λ x. after_message msg (queues x) (h.heap c)) (e refl).1
    one_more false true e is = ap (after_message msg (queues c)) is
    one_more false false e is = is

-- In a hub as the operations make it, a message sent to an account goes to each client of its set
-- once: behind the client's other messages where the queue has room, and where it is full the
-- client is disconnected with a policy violation; a client that is disconnected already keeps its
-- reason and may get the message or not; every other client is left as it was.
pub send-heap :
    (a : ℤ) (msg : Json) (queues : ℕ → Bool) (c : ℕ) (h : Hub)
    → IsHub h
    → (send a msg queues h).heap c
      ≡ (if registered a c h then after_message msg (queues c) (h.heap c) else h.heap c)
unfolding send
send-heap a msg queues c h v = deliver_all-heap a msg queues (members a h.clients) c h (v.once a)
