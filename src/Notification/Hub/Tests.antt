-- ===== src/Notification/Hub/Tests.antt =====
-- A hub with two clients of one account, the second of which is disconnected.
use equilibra.Common.{
  ◌+◌, ◌≡◌, refl, true, false, List, [], ◌∷◌, select, exists, arith, if◌then◌else◌,
}
use equilibra.Common.Int.{pos, ◌==ℤ◌}
use equilibra.Events.Document.{Json}
use equilibra.Notification.Hub.{
  Hub, Status, Step, new_hub, new_client, set_client, register, unregister, connections, send, step,
  steps,
}
use equilibra.Notification.Hub.Table.{members, has_key, put}
use equilibra.Notification.Hub.Registered.{registered, registered-unregister}
use equilibra.Notification.Hub.Invariant.{IsHub, steps-new_hub-IsHub}
use equilibra.Notification.Hub.Sending.{after_message, send-heap}
use equilibra.Notification.Hub.Disconnecting.{Closed, steps-Closed}
use equilibra.Notification.Hub.Connections.{connections-register}

abbrev hello : Json
hello = Json.text "hello"

abbrev two_clients : List Step
two_clients =
    Step.registers (pos 7)
    ∷ Step.registers (pos 7)
    ∷ Step.delivers (pos 7) hello true 0
    ∷ Step.unregisters (pos 7) Status.normal_closure 1
    ∷ []

steps-new_hub-IsHub_example : IsHub (steps two_clients new_hub)
steps-new_hub-IsHub_example = steps-new_hub-IsHub two_clients

abbrev pair : List Step
pair = Step.registers (pos 7) ∷ Step.registers (pos 7) ∷ []

send-heap_example : (send (pos 7) hello (λ c. true) (steps pair new_hub)).heap 1 ≡ (
    if registered (pos 7) 1 (steps pair new_hub)
    then after_message hello true ((steps pair new_hub).heap 1)
    else (steps pair new_hub).heap 1)
send-heap_example =
    send-heap (pos 7) hello (λ c. true) 1 (steps pair new_hub) (steps-new_hub-IsHub pair)

connections-register_example :
    (connections (register (pos 7) (steps two_clients new_hub)).1
      ≡ connections (steps two_clients new_hub) + 1)
    × (connections (unregister (pos 7) Status.normal_closure 0 (steps two_clients new_hub))
          + (if registered (pos 7) 0 (steps two_clients new_hub) then 1 else 0)
        ≡ connections (steps two_clients new_hub))
connections-register_example =
    connections-register (pos 7) Status.normal_closure 0 (steps two_clients new_hub)
      (steps-new_hub-IsHub two_clients)

-- The client has left; a shutdown follows.
abbrev left_hub : Hub
left_hub = record {
  clients = [];
  heap =
      set_client 0 (record { send = []; done = true; reason = Status.normal_closure })
        (λ c. new_client);
  next = 1;
}

steps-Closed_example :
    Closed 0 Status.normal_closure
      (steps (Step.closes_all ∷ Step.unregisters (pos 7) Status.policy_violation 0 ∷ []) left_hub)
steps-Closed_example =
    steps-Closed 0 Status.normal_closure
      (Step.closes_all ∷ Step.unregisters (pos 7) Status.policy_violation 0 ∷ []) left_hub
      (record { allocated = omega arith; done = refl; first = refl })

registered-unregister_example :
    registered (pos 7) 1 (unregister (pos 7) Status.normal_closure 1 (steps pair new_hub)) ≡ false
unfolding steps step register members has_key put exists ◌==ℤ◌
registered-unregister_example =
    registered-unregister (pos 7) (pos 7) Status.normal_closure 1 1 (steps pair new_hub)
      (steps-new_hub-IsHub pair).map

-- Both clients are told, and the one that has left is not.
told_test :
    ((send (pos 7) hello (λ c. true) (steps two_clients new_hub)).heap 0).send ≡ hello ∷ hello ∷ []
unfolding steps step send members has_key register put ◌==ℤ◌ select
told_test = refl
