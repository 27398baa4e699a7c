-- ===== src/Relay/Backlog.antt =====
-- The events that wait, and the ids of the outbox, which are distinct whatever is marked.
use equilibra.Common.{
  ℕ, ◌≡◌, refl, ap, ◌∙◌, Bool, true, false, List, [], ◌∷◌, map, take, length, select, exists,
  insert_by, order_by, arith, if◌then◌else◌,
}
use equilibra.Common.Int.{ℤ, ◌==ℤ◌, ==ℤ_iff}
use equilibra.Storage.Session.{Db, OutboxRow}
use equilibra.Storage.Querier.Outbox.{scan_event, older, unpublished, any_of, mark_row}
use equilibra.Relay.{disassemble_events}

abbrev pub has_id : ℤ → List OutboxRow → Bool
has_id a rows = exists (λ (o : OutboxRow). o.id ==ℤ a) rows

abbrev pub DistinctIds : List OutboxRow → Type 0
DistinctIds [] = Unit
DistinctIds (o ∷ rows) = (has_id o.id rows ≡ false) × DistinctIds rows

pub any_of-ids :
    (a : ℤ) (rows : List OutboxRow)
    → any_of (disassemble_events (map scan_event rows)).1 a ≡ has_id a rows
unfolding any_of disassemble_events exists
any_of-ids a [] = refl
any_of-ids a (o ∷ rows) = ap (λ b. if o.id ==ℤ a then true else b) (any_of-ids a rows)

has_id-insert_by :
    (a : ℤ) (o : OutboxRow) (rows : List OutboxRow)
    → has_id a (insert_by older o rows) ≡ has_id a (o ∷ rows)
unfolding insert_by exists
has_id-insert_by a o [] = refl
has_id-insert_by a o (x ∷ rows) = ground (arith, has_id-insert_by a o rows)

has_id-order_by : (a : ℤ) (rows : List OutboxRow) → has_id a (order_by older rows) ≡ has_id a rows
unfolding order_by exists
has_id-order_by a [] = refl
has_id-order_by a (o ∷ rows) =
    has_id-insert_by a o (order_by older rows) ∙ ground (arith, has_id-order_by a rows)

DistinctIds-insert_by :
    (o : OutboxRow) (rows : List OutboxRow)
    → has_id o.id rows ≡ false
    → DistinctIds rows
    → DistinctIds (insert_by older o rows)
unfolding insert_by exists
DistinctIds-insert_by o [] h k = (refl, tt)
DistinctIds-insert_by o (x ∷ rows) h k = ground (
  arith,
  h,
  k.0,
  k.1,
  DistinctIds-insert_by o rows,
  has_id-insert_by x.id o rows,
  ==ℤ_iff x.id o.id,
  ==ℤ_iff o.id x.id,
)

pub DistinctIds-order_by :
    (rows : List OutboxRow) → DistinctIds rows → DistinctIds (order_by older rows)
unfolding order_by
DistinctIds-order_by [] k = tt
DistinctIds-order_by (o ∷ rows) k =
    DistinctIds-insert_by o (order_by older rows) (has_id-order_by o.id rows ∙ k.0)
      (DistinctIds-order_by rows k.1)

has_id-select :
    (a : ℤ) (p : OutboxRow → Bool) (rows : List OutboxRow)
    → has_id a rows ≡ false
    → has_id a (select p rows) ≡ false
unfolding select exists
has_id-select a p [] h = refl
has_id-select a p (o ∷ rows) h = ground (arith, has_id-select a p rows)

pub DistinctIds-select :
    (p : OutboxRow → Bool) (rows : List OutboxRow) → DistinctIds rows → DistinctIds (select p rows)
unfolding select
DistinctIds-select p [] k = tt
DistinctIds-select p (o ∷ rows) k =
    ground (arith, k.0, has_id-select o.id p rows k.0, DistinctIds-select p rows k.1)

-- How many events wait.
abbrev pub backlog : Db → ℕ
backlog db = length (unpublished db)

abbrev pub batch_of : ℕ → Db → List OutboxRow
batch_of n db = take n (unpublished db)

has_id-marked :
    (a : ℤ) (ids : List ℤ) (now : ℕ) (rows : List OutboxRow)
    → has_id a (map (mark_row ids now) rows) ≡ has_id a rows
unfolding exists
has_id-marked a ids now [] = refl
has_id-marked a ids now (o ∷ rows) = ground (arith, has_id-marked a ids now rows)

pub DistinctIds-marked :
    (ids : List ℤ) (now : ℕ) (rows : List OutboxRow)
    → DistinctIds rows
    → DistinctIds (map (mark_row ids now) rows)
DistinctIds-marked ids now [] k = tt
DistinctIds-marked ids now (o ∷ rows) k =
    ground (arith, k.0, has_id-marked o.id ids now rows, DistinctIds-marked ids now rows k.1)
