-- ===== src/Notification/Hub/Invariant.antt =====
-- What holds of a hub after any steps: no live client is missing from the sets, and no queue grows
-- past its capacity.
use equilibra.Common.{
  ℕ, ◌≤◌, ◌<◌, ◌≡◌, refl, ap, ◌∙◌, Bool, true, false, List, [], ◌∷◌, length, length-append, ltb,
  ◌==◌, inl, inr, Bool-cases, exists, arith, if◌then◌else◌,
}
use equilibra.Common.Int.{ℤ, ==ℤ_refl}
use equilibra.Events.Document.{Json}
use equilibra.Notification.Hub.{
  Hub, Client, Status, Step, new_hub, capacity, disconnect, disconnect_all, register, unregister,
  enqueue, deliver, receive, rest_of, close_all, step, steps,
}
use equilibra.Notification.Hub.Table.{IsMap, members, entries}
use equilibra.Notification.Hub.Registered.{
  registered, NoRepeat, members-register-NoRepeat, members-unregister-NoRepeat, IsMap-register,
  IsMap-unregister, registered-register, registered-unregister,
}

pub record IsHub (h : Hub) : Type 0 where
  pub map : IsMap h.clients
  pub fresh : (a : ℤ) (c : ℕ) → registered a c h ≡ true → c < h.next
  -- A client that is not disconnected is in the set of some account.
  pub live : (c : ℕ) → c < h.next → (h.heap c).done ≡ false → (a : ℤ) × (registered a c h ≡ true)
  pub once : (a : ℤ) → NoRepeat (members a h.clients)
  pub room : (c : ℕ) → length (h.heap c).send ≤ capacity

IsHub-new_hub : IsHub new_hub
unfolding members exists
IsHub-new_hub = record {
  map = tt;
  fresh = λ a c e. cc;
  live = λ c lt e. absurd (omega (arith, lt));
  once = λ a. tt;
  room = λ c. omega arith;
}

-- A step that changes only client objects, and reconnects none.
IsHub-heap :
    (h : Hub) (heap : ℕ → Client)
    → IsHub h
    → ((c : ℕ) → (heap c).done ≡ false → (h.heap c).done ≡ false)
    → ((c : ℕ) → length (heap c).send ≤ capacity)
    → IsHub (record h { heap = heap })
IsHub-heap h heap v alive room = record {
  map = v.map;
  fresh = v.fresh;
  live = λ c lt e. v.live c lt (alive c e);
  once = v.once;
  room = room;
}

pub deliver-rule :
    (P : Hub → Type 0) (account : ℤ) (msg : Json) (queues : Bool) (c : ℕ) (h : Hub)
    → P h
    → (length (h.heap c).send < capacity → P (enqueue msg c h))
    → P (unregister account Status.policy_violation c h)
    → P (deliver account msg queues c h)
unfolding deliver
deliver-rule P account msg queues c h same queued dropped =
    cases (ltb (length (h.heap c).send) capacity) (h.heap c).done queues
      (λ e. queued (ground arith))
  where
    cases :
        (room done queues : Bool)
        → (room ≡ true → P (enqueue msg c h))
        → P (
            if room
            then (if done then (if queues then enqueue msg c h else h) else enqueue msg c h)
            else if done
            then h
            else unregister account Status.policy_violation c h)
    cases true true true k = k refl
    cases true true false k = same
    cases true false queues k = k refl
    cases false true queues k = same
    cases false false queues k = dropped

pub disconnect_all-heap :
    (cs : List ℕ) (heap : ℕ → Client) (d : ℕ)
    → ((disconnect_all cs heap d).send ≡ (heap d).send)
      × ((disconnect_all cs heap d).done ≡ false → (heap d).done ≡ false)
unfolding disconnect_all disconnect
disconnect_all-heap [] heap d = (refl, λ e. e)
disconnect_all-heap (c ∷ cs) heap d =
    let (same, alive) = disconnect_all-heap cs (disconnect Status.going_away c heap) d in
    (same ∙ ground arith, λ e. let k = alive e in ground arith)

pub register-IsHub : (b : ℤ) (h : Hub) → IsHub h → IsHub (register b h).1
unfolding register
register-IsHub b h v = record {
  map = IsMap-register b h v.map;
  fresh = λ a c e. ground (arith, registered-register a b c h, v.fresh a c);
  live = λ c lt e. elim (Bool-cases (h.next == c)) [
    | inl new ↦ (b, registered-register b b c h ∙ ground (arith, ==ℤ_refl b))
    | inr old ↦
        let old_lt : c < h.next = ground arith in
        let (a, k) = v.live c old_lt (rw old at e) in
        (a, registered-register a b c h ∙ ground arith)
  ];
  once = λ a. members-register-NoRepeat a b h (v.fresh a) (v.once a);
  room = λ c. ground (arith, v.room c);
}

pub unregister-IsHub : (b : ℤ) (r : Status) (d : ℕ) (h : Hub) → IsHub h → IsHub (unregister b r d h)
unfolding unregister disconnect
unregister-IsHub b r d h v = record {
  map = IsMap-unregister b r d h v.map;
  fresh = λ a c e. ground (arith, registered-unregister a b r c d h v.map, v.fresh a c);
  live = λ c lt e. elim (Bool-cases (d == c)) [
    | inl same ↦ absurd (ground arith)
    | inr other ↦
        let (a, k) = v.live c lt (rw other at e) in
        (a, registered-unregister a b r c d h v.map ∙ ground arith)
  ];
  once = λ a. members-unregister-NoRepeat a b r d h v.map (v.once a);
  room = λ c. ground (arith, v.room c);
}

enqueue-IsHub :
    (msg : Json) (d : ℕ) (h : Hub)
    → length (h.heap d).send < capacity
    → IsHub h
    → IsHub (enqueue msg d h)
enqueue-IsHub msg d h small v =
    IsHub-heap h _ v (λ c e. ground arith)
      (λ c. ground (arith, v.room c, length-append (h.heap d).send (msg ∷ [])))

length-rest_of : (ms : List Json) → length (rest_of ms) ≤ length ms
length-rest_of [] = omega arith
length-rest_of (m ∷ ms) = omega arith

pub receive-IsHub : (d : ℕ) (h : Hub) → IsHub h → IsHub (receive d h)
unfolding receive
receive-IsHub d h v =
    IsHub-heap h _ v (λ c e. ground arith)
      (λ c. ground (arith, v.room c, v.room d, length-rest_of (h.heap d).send))

close_all-IsHub : (h : Hub) → IsHub h → IsHub (close_all h)
unfolding close_all
close_all-IsHub h v =
    IsHub-heap h _ v (λ c. (disconnect_all-heap (entries h.clients) h.heap c).1)
      (λ c. omega (arith, v.room c, ap length (disconnect_all-heap (entries h.clients) h.heap c).0))

pub step-IsHub : (e : Step) (h : Hub) → IsHub h → IsHub (step e h)
unfolding step
step-IsHub (Step.registers b) h v = register-IsHub b h v
step-IsHub (Step.unregisters b r d) h v = unregister-IsHub b r d h v
step-IsHub (Step.delivers b msg queues d) h v =
    deliver-rule IsHub b msg queues d h v (λ small. enqueue-IsHub msg d h small v)
      (unregister-IsHub b Status.policy_violation d h v)
step-IsHub (Step.receives d) h v = receive-IsHub d h v
step-IsHub Step.closes_all h v = close_all-IsHub h v

steps-IsHub : (es : List Step) (h : Hub) → IsHub h → IsHub (steps es h)
unfolding steps
steps-IsHub [] h v = v
steps-IsHub (e ∷ es) h v = steps-IsHub es (step e h) (step-IsHub e h v)

-- From an empty hub, whatever registrations, removals, deliveries, reads and shutdowns follow one
-- another: each address in a set is one that was allocated, a client that is not disconnected is
-- in the set of some account, no account has two
-- sets and no set a client twice, and no queue holds more than 16 messages.
pub steps-new_hub-IsHub : (es : List Step) → IsHub (steps es new_hub)
steps-new_hub-IsHub es = steps-IsHub es new_hub IsHub-new_hub
