-- ===== src/Notification/Socket/Registration.antt =====
-- When the handler has returned, its client is out of the hub, for good.
use equilibra.Common.{
  ℕ, ◌<◌, ◌≡◌, refl, ◌∙◌, Bool, true, false, some, List, [], ◌∷◌, ◌++◌, arith, if◌then◌else◌,
}
use equilibra.Common.Int.{ℤ, ==ℤ_refl}
use equilibra.Events.Document.{Json}
use equilibra.Notification.Hub.{
  Hub, Status, Step, disconnect, register, unregister, receive, close_all, step,
}
use equilibra.Notification.Hub.Registered.{registered, registered-register, registered-unregister}
use equilibra.Notification.Hub.Invariant.{
  IsHub, register-IsHub, unregister-IsHub, step-IsHub, deliver-rule,
}
use equilibra.Notification.Hub.Disconnecting.{Closed, step-Closed, unregister-Closed}
use equilibra.Notification.Socket.Turns.{step-next, at-rule, turn-rule}
use equilibra.Notification.Socket.{
  Place, selecting, writing, pinging, closing, returned, Signal, takes_message, ticks, takes_done,
  cancelled, ends, meanwhile, Connection, leave, take_message, take_done, select_case, turn_at,
  turn, loop, connect,
}

-- A client that is out of a set does not come back into it.
step-registered :
    (a : ℤ) (c : ℕ) (e : Step) (h : Hub)
    → IsHub h
    → c < h.next
    → registered a c h ≡ false
    → registered a c (step e h) ≡ false
unfolding step receive close_all
step-registered a c (Step.registers b) h v lt out =
    registered-register a b c h ∙ ground (arith, out, lt)
step-registered a c (Step.unregisters b q d) h v lt out =
    registered-unregister a b q c d h v.map ∙ ground (arith, out)
step-registered a c (Step.delivers b msg queues d) h v lt out =
    deliver-rule (λ h'. registered a c h' ≡ false) b msg queues d h out (λ _. out)
      (registered-unregister a b Status.policy_violation c d h v.map ∙ ground (arith, out))
step-registered a c (Step.receives d) h v lt out = out
step-registered a c Step.closes_all h v lt out = out

abbrev pub HasReturned : Place → Type 0
HasReturned (returned unwritten) = Unit
HasReturned p = ⊥

pub record Serving (a : ℤ) (k : Connection) : Type 0 where
  pub hub : IsHub k.hub
  pub allocated : k.client < k.hub.next
  -- The handler has returned: its client is in no set of the account, and disconnected.
  pub gone :
      HasReturned k.place
      → (registered a k.client k.hub ≡ false) × ((r : Status) × Closed k.client r k.hub)
  -- The connection was closed with a reason: it is the client's.
  pub reason : (r : Status) → k.closed_with ≡ some r → Closed k.client r k.hub

-- The first disconnection gives the reason.
unregister-first :
    (a : ℤ) (r : Status) (c : ℕ) (h : Hub)
    → c < h.next
    → (q : Status) × Closed c q (unregister a r c h)
unfolding unregister disconnect
unregister-first a r c h lt = (_, record { allocated = lt; done = ground arith; first = refl })

module _ (a : ℤ) where
  leave-Serving : (ms : List Json) (k : Connection) → Serving a k → Serving a (leave a ms k)
  leave-Serving ms k v =
      let n = Status.normal_closure in
      record {
        hub = unregister-IsHub a n k.client k.hub v.hub;
        allocated = (unregister-first a n k.client k.hub v.allocated).1.allocated;
        gone = λ _. (
          registered-unregister a a n k.client k.client k.hub v.hub.map
              ∙ ground (arith, ==ℤ_refl a),
          unregister-first a n k.client k.hub v.allocated,
        );
        reason = λ r e. unregister-Closed k.client r a n k.client k.hub (v.reason r e);
      }

  -- The place changes, to one that is not a return.
  place-Serving :
      (p : Place) (k : Connection)
      → ¬ (HasReturned p)
      → Serving a k
      → Serving a (record k { place = p })
  place-Serving p k stays v = record {
    hub = v.hub;
    allocated = v.allocated;
    gone = λ h. absurd (stays h);
    reason = v.reason;
  }

  step-Serving :
      (e : Step) (k : Connection) → Serving a k → Serving a (record k { hub = step e k.hub })
  step-Serving e k v = record {
    hub = step-IsHub e k.hub v.hub;
    allocated = step-next k.client e k.hub v.allocated;
    gone = λ h.
        let (out, (r, closed)) = v.gone h in
        (
          step-registered a k.client e k.hub v.hub v.allocated out,
          (r, step-Closed k.client r e k.hub closed),
        );
    reason = λ r h. step-Closed k.client r e k.hub (v.reason r h);
  }

  take_message-Serving :
      (ms : List Json) (k : Connection) → Serving a k → Serving a (take_message a ms k)
  unfolding step
  take_message-Serving [] k v = v
  take_message-Serving (m ∷ ms) k v =
      place-Serving (writing m) (record k { hub = receive k.client k.hub }) (λ h. h)
        (step-Serving (Step.receives k.client) k v)

  take_done-Serving : (k : Connection) → Serving a k → Serving a (take_done a k)
  take_done-Serving k v = by_done (k.hub.heap k.client).done refl
    where
      by_done :
          (b : Bool)
          → (k.hub.heap k.client).done ≡ b
          → Serving a (
              if b
              then record k { place = closing; closed_with = some (k.hub.heap k.client).reason }
              else k)
      by_done true e = record {
        hub = v.hub;
        allocated = v.allocated;
        gone = λ h. absurd h;
        reason = λ r h. record { allocated = v.allocated; done = e; first = cc h };
      }
      by_done false e = v

  select_case-Serving : (s : Signal) (k : Connection) → Serving a k → Serving a (select_case a s k)
  select_case-Serving takes_message k v = take_message-Serving (k.hub.heap k.client).send k v
  select_case-Serving ticks k v = place-Serving pinging k (λ h. h) v
  select_case-Serving takes_done k v = take_done-Serving k v
  select_case-Serving cancelled k v = leave-Serving [] k v
  select_case-Serving (ends b) k v = v
  select_case-Serving (meanwhile e) k v = v

  ends-Serving :
      (p : Place) (b : Bool) (k : Connection) → Serving a k → Serving a (turn_at a p (ends b) k)
  ends-Serving selecting b k v = v
  ends-Serving (writing m) true k v =
      place-Serving selecting (record k { written = k.written ++ m ∷ [] }) (λ h. h)
        (record { hub = v.hub; allocated = v.allocated; gone = v.gone; reason = v.reason })
  ends-Serving (writing m) false k v = leave-Serving (m ∷ []) k v
  ends-Serving pinging true k v = place-Serving selecting k (λ h. h) v
  ends-Serving pinging false k v = leave-Serving [] k v
  ends-Serving closing b k v = leave-Serving [] k v
  ends-Serving (returned ms) b k v = v

  at_place : (s : Signal) (k : Connection) → Serving a k → Serving a (turn_at a k.place s k)
  at_place s k v =
      at-rule a (Serving a) k.place s k v (λ _. select_case-Serving s k v)
        (λ b. ends-Serving k.place b k v)

  turn-Serving : (s : Signal) (k : Connection) → Serving a k → Serving a (turn a s k)
  turn-Serving s k v =
      turn-rule a (λ _ k'. Serving a k') s k (λ e. step-Serving e k v) (λ s'. at_place s' k v)

  loop-Serving :
      (signals : List Signal) (k : Connection) → Serving a k → Serving a (loop a signals k)
  unfolding loop
  loop-Serving [] k v = v
  loop-Serving (s ∷ signals) k v = loop-Serving signals (turn a s k) (turn-Serving s k v)

  pub loop-connect-Serving :
      (signals : List Signal) (h : Hub) → IsHub h → Serving a (loop a signals (connect a h))
  unfolding connect register
  loop-connect-Serving signals h v = loop-Serving signals (connect a h) (record {
    hub = register-IsHub a h v;
    allocated = omega arith;
    gone = λ k. absurd k;
    reason = λ r k. absurd (cc);
  })
