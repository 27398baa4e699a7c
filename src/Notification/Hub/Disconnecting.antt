-- ===== src/Notification/Hub/Disconnecting.antt =====
-- A client is disconnected once: its channel stays closed, and its reason is the first one given.
use equilibra.Common.{ℕ, ◌<◌, ◌≡◌, refl, ap, ◌∙◌, true, List, [], ◌∷◌, arith}
use equilibra.Common.Int.{ℤ}
use equilibra.Events.Document.{Json}
use equilibra.Notification.Hub.{
  Hub, Client, Status, Step, disconnect, disconnect_all, register, unregister, enqueue, receive,
  close_all, step, steps,
}
use equilibra.Notification.Hub.Table.{entries}
use equilibra.Notification.Hub.Invariant.{deliver-rule}

-- The client is allocated and disconnected for the reason.
pub record Closed (c : ℕ) (reason : Status) (h : Hub) : Type 0 where
  pub allocated : c < h.next
  pub done : (h.heap c).done ≡ true
  pub first : (h.heap c).reason ≡ reason

disconnect_all-first :
    (cs : List ℕ) (heap : ℕ → Client) (c : ℕ)
    → (heap c).done ≡ true
    → disconnect_all cs heap c ≡ heap c
unfolding disconnect_all disconnect
disconnect_all-first [] heap c h = refl
disconnect_all-first (d ∷ ds) heap c h =
    let same : disconnect Status.going_away d heap c ≡ heap c = ground arith in
    disconnect_all-first ds (disconnect Status.going_away d heap) c (ap (λ o. o.done) same ∙ h)
    ∙ same

pub unregister-Closed :
    (c : ℕ) (r : Status) (a : ℤ) (q : Status) (d : ℕ) (h : Hub)
    → Closed c r h
    → Closed c r (unregister a q d h)
unfolding unregister disconnect
unregister-Closed c r a q d h k = record {
  allocated = k.allocated;
  done = ground (arith, k.done);
  first = ground (arith, k.done, k.first);
}

enqueue-Closed :
    (c : ℕ) (r : Status) (msg : Json) (d : ℕ) (h : Hub)
    → Closed c r h
    → Closed c r (enqueue msg d h)
enqueue-Closed c r msg d h k = record {
  allocated = k.allocated;
  done = ground (arith, k.done);
  first = ground (arith, k.first);
}

pub step-Closed : (c : ℕ) (r : Status) (e : Step) (h : Hub) → Closed c r h → Closed c r (step e h)
unfolding step register receive close_all
step-Closed c r (Step.registers a) h k = record {
  allocated = omega (arith, k.allocated);
  done = ground (arith, k.done, k.allocated);
  first = ground (arith, k.first, k.allocated);
}
step-Closed c r (Step.unregisters a q d) h k = unregister-Closed c r a q d h k
step-Closed c r (Step.delivers a msg queues d) h k =
    deliver-rule (Closed c r) a msg queues d h k (λ _. enqueue-Closed c r msg d h k)
      (unregister-Closed c r a Status.policy_violation d h k)
step-Closed c r (Step.receives d) h k = record {
  allocated = k.allocated;
  done = ground (arith, k.done);
  first = ground (arith, k.first);
}
step-Closed c r Step.closes_all h k =
    let same = disconnect_all-first (entries h.clients) h.heap c k.done in
    record {
      allocated = k.allocated;
      done = ap (λ o. o.done) same ∙ k.done;
      first = ap (λ o. o.reason) same ∙ k.first;
    }

-- Once a client has been disconnected for a reason, it stays disconnected for that reason whatever
-- steps follow: later disconnections, by the hub, its own handler or the shutdown, change nothing.
pub steps-Closed :
    (c : ℕ) (r : Status) (es : List Step) (h : Hub) → Closed c r h → Closed c r (steps es h)
unfolding steps
steps-Closed c r [] h k = k
steps-Closed c r (e ∷ es) h k = steps-Closed c r es (step e h) (step-Closed c r e h k)
