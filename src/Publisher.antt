-- ===== src/Publisher.antt =====
-- internal/publisher/publisher.go: the Kafka records made of messages. The client is a parameter:
-- what `ProduceSync(...).FirstErr()` answers, and the records that the broker has taken.
pub mod EventId
mod Tests
use equilibra.Common.{ℕ, suc, String, List, [], ◌∷◌}
use equilibra.Errors.{Outcome}
use equilibra.Events.Document.{Json}
use equilibra.Relay.{Message}

pub record KafkaRecord : Type 0 where
  pub key : List ℕ
  pub value : Json
  pub headers : List (String × String)

-- Go ranges over a map in any order, another one at each time: the order that it takes for the n-th
-- message.
abbrev pub HeaderOrders : Type 0
HeaderOrders = ℕ → List (String × String) → List (String × String)

abbrev pub new_record : HeaderOrders → Message → KafkaRecord
new_record orders m = record { key = m.key; value = m.value; headers = orders 0 m.headers }

unfoldable pub new_records : HeaderOrders → List Message → List KafkaRecord
new_records orders [] = []
new_records orders (m ∷ ms) = new_record orders m ∷ new_records (λ n. orders (suc n)) ms

unfoldable pub publish :
    (List KafkaRecord → Outcome (Unit {0}) × List KafkaRecord)
    → HeaderOrders
    → List Message
    → Outcome (Unit {0}) × List KafkaRecord
unfolding new_records
publish produce_sync orders ms = produce_sync (new_records orders ms)
