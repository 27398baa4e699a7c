-- ===== src/Notification/Subscriber/Tests.antt =====
-- Envelopes between malformed messages, to a list and to a hub with one client.
use equilibra.Common.{
  ◌≡◌, refl, true, false, Option, none, some, List, [], ◌∷◌, ◌++◌, map, exists, arith,
}
use equilibra.Common.Int.{ℤ, pos, ◌==ℤ◌}
use equilibra.Storage.Schema.{TxType}
use equilibra.Events.{EntryPosted}
use equilibra.Events.Document.{Json, Fields}
use equilibra.Notification.Message.{notification, envelope}
use equilibra.Notification.Hub.{Step, new_hub, register, step, steps}
use equilibra.Notification.Hub.Table.{members, has_key, put}
use equilibra.Notification.Hub.Invariant.{steps-new_hub-IsHub}
use equilibra.Notification.Subscriber.{
  Signal, cancelled, closed, payload, goes_on, ended, failed, Sender, listen, run_subscriber,
}
use equilibra.Notification.Subscriber.Delivery.{
  readable, send_all, run_subscriber-append, hub_sender, listen-heap,
}

-- Reads the envelopes as they are written.
abbrev read_envelope : Json → Option (ℤ × Json)
read_envelope (Json.obj (Fields.field j (Json.num a) (Fields.field k m Fields.end))) = some (a, m)
read_envelope m = none

read_envelope-envelope : (a : ℤ) (m : Json) → read_envelope (envelope a m) ≡ some (a, m)
unfolding envelope
read_envelope-envelope a m = refl

abbrev keep : Sender (List (ℤ × Json))
keep account_id message l = l ++ (account_id, message) ∷ []

abbrev payloads : List Json
payloads =
    envelope (pos 7) (Json.text "first")
    ∷ Json.text "?"
    ∷ envelope (pos 8) (Json.text "second")
    ∷ []

run_subscriber-append_example :
    let w' = send_all keep read_envelope (readable keep read_envelope payloads) [] in
    let after = λ (signals : List Signal).
      run_subscriber keep read_envelope true false (map payload payloads ++ signals) [] in
    (after [] ≡ (goes_on, w'))
    × (after (cancelled ∷ []) ≡ (ended, w'))
    × (after (closed ∷ []) ≡ (failed, w'))
run_subscriber-append_example = run_subscriber-append keep read_envelope false payloads [] []

-- The malformed message between the two is skipped.
kept_test :
    (run_subscriber keep read_envelope true false (map payload payloads) []).1
    ≡ (pos 7, Json.text "first") ∷ (pos 8, Json.text "second") ∷ []
unfolding run_subscriber listen envelope
kept_test = refl

abbrev entry : EntryPosted
entry = record {
  account_id = pos 7;
  transaction_id = pos 1;
  transaction_type = TxType.deposit;
  amount = pos 30;
  currency = "USD";
  counterparty_id = pos 1;
  reversal_of = none;
  occurred_at = 0;
}

abbrev one_client : List Step
one_client = Step.registers (pos 7) ∷ []

listen-heap_example :
    ((listen hub_sender read_envelope
        (payload (envelope (pos 7) (notification "e1" entry)) ∷ [])
        (steps one_client new_hub, λ n c. true)).1.0.heap
      0).send
    ≡ notification "e1" entry ∷ []
unfolding steps step register members has_key put exists ◌==ℤ◌
listen-heap_example =
    listen-heap read_envelope read_envelope-envelope "e1" entry (steps one_client new_hub)
      (λ n c. true) 0 (steps-new_hub-IsHub one_client) refl refl (omega arith)
