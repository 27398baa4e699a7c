-- ===== src/Notification/Consumer.antt =====
-- internal/notification/consumer.go over its interface `Handler`, with the state that the handler
-- works on. The Kafka client is what each poll fetches and whether each commit succeeds.
pub mod Batches
pub mod Commits
pub mod Notifying
use equilibra.Common.{
  ℕ, zero, suc, String, Bool, true, false, Option, none, some, List, [], ◌∷◌, ◌++◌, str_eq,
  if◌then◌else◌,
}
use equilibra.Events.Document.{Json}
use equilibra.Publisher.{KafkaRecord}
use equilibra.Notification.Processor.{Handled, finished, retry}

-- The loop over the headers: the last one named event_id counts.
unfoldable pub event_id_of : String → List (String × String) → String
event_id_of event_id [] = event_id
event_id_of event_id ((k, v) ∷ hs) = event_id_of (if str_eq k "event_id" then v else event_id) hs

abbrev pub Handler : Type 0 → Type 0
Handler W = String → Json → W → Handled × W

-- How the attempts at one record end: it is finished, and the context lives for some failures more;
-- or the context was cancelled, and `handle` returned an error.
pub data Attempted (W : Type 0) : Type 0 where
  done : ℕ → W → Attempted W
  given_up : W → Attempted W

-- The loop over the records of one poll: the finished ones, and what is left of the context.
pub record Batch (W : Type 0) : Type 0 where
  pub finished_records : List KafkaRecord
  pub patience : Option ℕ
  pub world : W

-- A round of `Run`: whether the client is closed or the context cancelled at the poll, what it
-- fetches, whether the commit succeeds, and whether the context is cancelled by the end.
pub record Round : Type 0 where
  pub stopped : Bool
  pub fetched : List KafkaRecord
  pub commits : Bool
  pub cancelled : Bool

-- `finished_records` are all those passed to `CommitRecords`; `committed` those that were passed
-- to a call that succeeded.
pub record Progress (W : Type 0) : Type 0 where
  pub world : W
  pub patience : ℕ
  pub finished_records : List KafkaRecord
  pub committed : List KafkaRecord

module _ {W : Type 0} (handler : Handler W) where
  abbrev last_attempt : Handled × W → Attempted W
  last_attempt (finished, w) = done zero w
  last_attempt (retry f, w) = given_up w

  abbrev or_again : ℕ → (W → Attempted W) → Handled × W → Attempted W
  or_again n again (finished, w) = done (suc n) w
  or_again n again (retry f, w) = again w

  -- The loop of `handle`: a failed attempt is repeated until the context is cancelled, which it
  -- is after `n` failures more.
  unfoldable pub attempt : ℕ → String → Json → W → Attempted W
  attempt zero event_id value w = last_attempt (handler event_id value w)
  attempt (suc n) event_id value w =
      or_again n (attempt n event_id value) (handler event_id value w)

  unfoldable pub handle : ℕ → KafkaRecord → W → Attempted W
  unfolding attempt
  handle patience rec w = attempt patience (event_id_of "" rec.headers) rec.value w

  abbrev or_break : KafkaRecord → (ℕ → W → Batch W) → Attempted W → Batch W
  or_break rec rest (done n w) =
      let b = rest n w in record b { finished_records = rec ∷ b.finished_records }
  or_break rec rest (given_up w) = record { finished_records = []; patience = none; world = w }

  unfoldable pub handle_all : List KafkaRecord → ℕ → W → Batch W
  unfolding handle
  handle_all [] n w = record { finished_records = []; patience = some n; world = w }
  handle_all (rec ∷ recs) n w = or_break rec (handle_all recs) (handle n rec w)

  abbrev after_batch : Round → Progress W → Batch W → ℕ → Progress W
  after_batch round g b n = record {
    world = b.world;
    patience = n;
    finished_records = g.finished_records ++ b.finished_records;
    committed = g.committed ++ (if round.commits then b.finished_records else []);
  }

  abbrev next_round :
      Round → Progress W → (Progress W → Progress W) → Batch W → Option ℕ → Progress W
  next_round round g rest b none = after_batch round g b 0
  next_round round g rest b (some n) =
      let g' = after_batch round g b n in
      let later = rest g' in if round.cancelled then g' else later

  unfoldable pub run : List Round → Progress W → Progress W
  unfolding handle_all
  run [] g = g
  run (round ∷ rounds) g =
      let b = handle_all round.fetched g.patience g.world in
      let later = next_round round g (run rounds) b b.patience in if round.stopped then g else later
