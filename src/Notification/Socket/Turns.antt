-- ===== src/Notification/Socket/Turns.antt =====
-- The cases of a turn of the handler's loop.
use equilibra.Common.{ℕ, ◌<◌, ◌≡◌, refl, Bool, arith}
use equilibra.Common.Int.{ℤ}
use equilibra.Notification.Hub.{Hub, Step, register, unregister, receive, close_all, step}
use equilibra.Notification.Hub.Invariant.{deliver-rule}
use equilibra.Notification.Socket.{
  Place, selecting, writing, pinging, closing, returned, Signal, takes_message, ticks, takes_done,
  cancelled, ends, meanwhile, Connection, select_case, turn_at, turn,
}

pub step-next : (c : ℕ) (e : Step) (h : Hub) → c < h.next → c < (step e h).next
unfolding step register receive close_all unregister
step-next c (Step.registers a) h lt = omega (arith, lt)
step-next c (Step.unregisters a q d) h lt = lt
step-next c (Step.delivers a msg queues d) h lt =
    deliver-rule (λ h'. c < h'.next) a msg queues d h lt (λ _. lt) lt
step-next c (Step.receives d) h lt = lt
step-next c Step.closes_all h lt = lt

module _ (a : ℤ) where
  -- A signal at a place: outside the `select` only an end is heard.
  pub at-rule :
      (P : Connection → Type 0) (p : Place) (s : Signal) (k : Connection)
      → P k
      → (p ≡ selecting → P (select_case a s k))
      → ((b : Bool) → P (turn_at a p (ends b) k))
      → P (turn_at a p s k)
  at-rule P selecting s k same chosen over = chosen refl
  at-rule P (writing m) (ends b) k same chosen over = over b
  at-rule P (writing m) takes_message k same chosen over = same
  at-rule P (writing m) ticks k same chosen over = same
  at-rule P (writing m) takes_done k same chosen over = same
  at-rule P (writing m) cancelled k same chosen over = same
  at-rule P (writing m) (meanwhile e) k same chosen over = same
  at-rule P pinging (ends b) k same chosen over = over b
  at-rule P pinging takes_message k same chosen over = same
  at-rule P pinging ticks k same chosen over = same
  at-rule P pinging takes_done k same chosen over = same
  at-rule P pinging cancelled k same chosen over = same
  at-rule P pinging (meanwhile e) k same chosen over = same
  at-rule P closing (ends b) k same chosen over = over b
  at-rule P closing takes_message k same chosen over = same
  at-rule P closing ticks k same chosen over = same
  at-rule P closing takes_done k same chosen over = same
  at-rule P closing cancelled k same chosen over = same
  at-rule P closing (meanwhile e) k same chosen over = same
  at-rule P (returned ms) s k same chosen over = same

  pub turn-rule :
      (P : Signal → Connection → Type 0) (s : Signal) (k : Connection)
      → ((e : Step) → P (meanwhile e) (record k { hub = step e k.hub }))
      → ((s' : Signal) → P s' (turn_at a k.place s' k))
      → P s (turn a s k)
  unfolding turn
  turn-rule P (meanwhile e) k steps at = steps e
  turn-rule P takes_message k steps at = at takes_message
  turn-rule P ticks k steps at = at ticks
  turn-rule P takes_done k steps at = at takes_done
  turn-rule P cancelled k steps at = at cancelled
  turn-rule P (ends b) k steps at = at (ends b)
