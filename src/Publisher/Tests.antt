-- ===== src/Publisher/Tests.antt =====
-- Two events whose headers are sent in the opposite order.
use equilibra.Common.{◌≡◌, refl, String, List, [], ◌∷◌, map}
use mathlib.Core.List.{Permᴰ}
use mathlib.Core.List.Permᴰ
use equilibra.Common.Int.{pos}
use equilibra.Events.Document.{Json}
use equilibra.Storage.Querier.Outbox.{OutboxEvent}
use equilibra.Relay.{disassemble_events}
use equilibra.Publisher.{HeaderOrders, new_records}
use equilibra.Publisher.EventId.{AreOrders, id_of, new_records-events}

abbrev swap_two : List (String × String) → List (String × String)
swap_two [] = []
swap_two (a ∷ []) = a ∷ []
swap_two (a ∷ b ∷ hs) = b ∷ a ∷ hs

abbrev swapped : HeaderOrders
swapped n hs = swap_two hs

swapped-AreOrders : AreOrders swapped
swapped-AreOrders n [] = Permᴰ.nil
swapped-AreOrders n (a ∷ []) = Permᴰ.refl (a ∷ [])
swapped-AreOrders n (a ∷ b ∷ hs) = Permᴰ.swap refl refl

abbrev event : String → OutboxEvent
event event_id = record {
  id = pos 1;
  event_id = event_id;
  event_type = "entry.posted";
  partition_key = b'7' ∷ [];
  payload = Json.num (pos 30);
}

abbrev two_events : List OutboxEvent
two_events = event "e1" ∷ event "e2" ∷ []

new_records-events_example :
    let recs = new_records swapped (disassemble_events two_events).0 in
    (map id_of recs ≡ map (λ e. e.event_id) two_events)
    × (map (λ rec. rec.value) recs ≡ map (λ e. e.payload) two_events)
    × (map (λ rec. rec.key) recs ≡ map (λ e. e.partition_key) two_events)
new_records-events_example = new_records-events swapped swapped-AreOrders two_events
