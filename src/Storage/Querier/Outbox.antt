-- ===== src/Storage/Querier/Outbox.antt =====
-- The outbox queries of internal/storage/querier.go that the relay uses.
use equilibra.Common.{
  ℕ, Bool, true, false, none, some, List, [], ◌∷◌, map, take, select, exists, order_by,
  if◌then◌else◌, String,
}
use equilibra.Common.Int.{ℤ, pos, negsuc, ◌-ℤ◌, leb_ℤ, ◌==ℤ◌}
use equilibra.Errors.{Outcome, ok, err, constraint}
use equilibra.Events.Document.{Json}
use equilibra.Storage.Session.{Db, OutboxRow, Exec, statement}

-- The struct `OutboxEvent`.
pub record OutboxEvent : Type 0 where
  pub id : ℤ
  pub event_id : String
  pub event_type : String
  pub partition_key : List ℕ
  pub payload : Json

abbrev pub scan_event : OutboxRow → OutboxEvent
scan_event o = record {
  id = o.id;
  event_id = o.event_id;
  event_type = o.event_type;
  partition_key = o.partition_key;
  payload = o.payload;
}

abbrev pub is_unpublished : OutboxRow → Bool
is_unpublished o = elim o.published_at [ none ↦ true | some _ ↦ false ]

-- `ORDER BY id`
abbrev pub older : OutboxRow → OutboxRow → Bool
older a b = leb_ℤ a.id b.id

unfoldable pub unpublished : Db → List OutboxRow
unpublished db = order_by older (select is_unpublished db.outbox)

unfoldable pub try_lock_outbox : Exec Bool
try_lock_outbox = statement λ s. (ok s.outbox_free, s)

abbrev limit_events : ℤ → List OutboxRow → Outcome (List OutboxEvent)
limit_events (pos n) rows = ok (map scan_event (take n rows))
limit_events (negsuc n) rows = err constraint

unfoldable pub get_unpublished_outbox_events : ℤ → Exec (List OutboxEvent)
get_unpublished_outbox_events limit = statement λ s. (limit_events limit (unpublished s.db), s)

-- `id = ANY($1)`
unfoldable pub any_of : List ℤ → ℤ → Bool
any_of ids id = exists (λ i. i ==ℤ id) ids

abbrev pub mark_row : List ℤ → ℕ → OutboxRow → OutboxRow
mark_row ids now o = if any_of ids o.id then record o { published_at = some now } else o

unfoldable pub mark_outbox_events_published : List ℤ → Exec (Unit {0})
mark_outbox_events_published ids =
    statement
      λ s. (ok tt, record s { db = record s.db { outbox = map (mark_row ids s.now) s.db.outbox } })

abbrev pub age_of_first : ℕ → List OutboxRow → ℤ
age_of_first now [] = pos 0
age_of_first now (o ∷ _) = pos now -ℤ pos o.created_at

-- The age in the units of the clock; no unpublished event is an age of zero.
unfoldable pub oldest_unpublished_outbox_age : Exec ℤ
oldest_unpublished_outbox_age = statement λ s. (ok (age_of_first s.now (unpublished s.db)), s)
