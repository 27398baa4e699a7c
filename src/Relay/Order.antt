-- ===== src/Relay/Order.antt =====
-- Which events a batch takes: the unpublished ones with the smallest ids.
use equilibra.Common.{
  ℕ, zero, suc, ◌+◌, ◌≤◌, ◌≡◌, refl, sym, subst, ap, ◌∙◌, ◌⊎◌, inl, inr, Bool, true, false, not,
  none, some, List, [], ◌∷◌, ◌++◌, map, take, length, select, exists, insert_by, order_by, All,
  All-insert_by, length-append, Bool-cases, arith, if◌then◌else◌,
}
use equilibra.Common.Perms.{select-perm, order_by-perm, length-perm}
use mathlib.Core.List.{Permᴰ}
use equilibra.Common.Int.{ℤ, ◌≤ℤ◌, ==ℤ_iff, ==ℤ_refl}
use equilibra.Storage.Session.{Db, OutboxRow}
use equilibra.Storage.Querier.Outbox.{scan_event, older, unpublished, mark_row}
use equilibra.Relay.{disassemble_events}
use equilibra.Relay.Backlog.{
  has_id, DistinctIds, DistinctIds-order_by, DistinctIds-select, any_of-ids, backlog, batch_of,
}

-- The row has no time of publication.
abbrev pub is_waiting : OutboxRow → Bool
is_waiting o = elim o.published_at [ none ↦ true | some t ↦ false ]

-- No id is smaller than that of a row before it.
abbrev pub Ascending : List OutboxRow → Type 0
Ascending [] = Unit
Ascending (x ∷ xs) = All (λ (y : OutboxRow). x.id ≤ℤ y.id) xs × Ascending xs

weaken :
    (a b : ℤ) (xs : List OutboxRow)
    → b ≤ℤ a
    → All (λ (y : OutboxRow). a ≤ℤ y.id) xs
    → All (λ (y : OutboxRow). b ≤ℤ y.id) xs
weaken a b [] le h = tt
weaken a b (x ∷ xs) le h = (omega (arith, le, h.0), weaken a b xs le h.1)

Ascending-insert_by :
    (x : OutboxRow) (xs : List OutboxRow) → Ascending xs → Ascending (insert_by older x xs)
unfolding insert_by
Ascending-insert_by x [] h = (tt, tt)
Ascending-insert_by x (y ∷ ys) h = elim (Bool-cases (older x y)) [
  | inl before ↦
      let le : x.id ≤ℤ y.id = ground arith in rw before ((le, weaken y.id x.id ys le h.0), h)
  | inr after ↦
      let le : y.id ≤ℤ x.id = ground arith in
      rw after (All-insert_by _ older x ys le h.0, Ascending-insert_by x ys h.1)
]

pub Ascending-order_by : (xs : List OutboxRow) → Ascending (order_by older xs)
unfolding order_by
Ascending-order_by [] = tt
Ascending-order_by (x ∷ xs) = Ascending-insert_by x (order_by older xs) (Ascending-order_by xs)

abbrev pub drop : ℕ → List OutboxRow → List OutboxRow
drop zero xs = xs
drop (suc n) [] = []
drop (suc n) (x ∷ xs) = drop n xs

take-drop : (n : ℕ) (xs : List OutboxRow) → take n xs ++ drop n xs ≡ xs
take-drop zero xs = refl
take-drop (suc n) [] = refl
take-drop (suc n) (x ∷ xs) = ap (λ (l : List OutboxRow). x ∷ l) (take-drop n xs)

length-take_le : (n : ℕ) (xs : List OutboxRow) → length (take n xs) ≤ n
length-take_le zero xs = omega arith
length-take_le (suc n) [] = omega arith
length-take_le (suc n) (x ∷ xs) = omega (arith, length-take_le n xs)

take-full : (n : ℕ) (xs : List OutboxRow) → (drop n xs ≡ []) ⊎ (length (take n xs) ≡ n)
take-full zero xs = inr refl
take-full (suc n) [] = inl refl
take-full (suc n) (x ∷ xs) = elim (take-full n xs) [ inl e ↦ inl e | inr e ↦ inr (ap suc e) ]

-- The batch and the rest are the waiting rows, in the order of their ids; the batch has `n` of them,
-- or all.
pub record IsFirst (n : ℕ) (rows batch rest : List OutboxRow) : Type 0 where
  pub waiting : Permᴰ (select is_waiting rows) (batch ++ rest)
  pub ascending : Ascending (batch ++ rest)
  pub size : length batch ≤ n
  pub full : (rest ≡ []) ⊎ (length batch ≡ n)

pub batch-IsFirst :
    (n : ℕ) (db : Db) → IsFirst n db.outbox (batch_of n db) (drop n (unpublished db))
unfolding unpublished
batch-IsFirst n db =
    let rows = order_by older (select is_waiting db.outbox) in
    record {
      waiting =
          subst (Permᴰ (select is_waiting db.outbox)) (sym (take-drop n rows))
            (order_by-perm older (select is_waiting db.outbox));
      ascending =
          subst Ascending (sym (take-drop n rows))
            (Ascending-order_by (select is_waiting db.outbox));
      size = length-take_le n rows;
      full = take-full n rows;
    }

-- The row with a time of publication, if the batch has its id.
abbrev pub published_with : List OutboxRow → ℕ → OutboxRow → OutboxRow
published_with batch now o = if has_id o.id batch then record o { published_at = some now } else o

pub map-mark_row :
    (batch : List OutboxRow) (now : ℕ) (rows : List OutboxRow)
    → map (mark_row (disassemble_events (map scan_event batch)).1 now) rows
      ≡ map (published_with batch now) rows
map-mark_row batch now [] = refl
map-mark_row batch now (o ∷ rows) =
    ap
      (λ b.
        (if b then record o { published_at = some now } else o)
        ∷ map (mark_row (disassemble_events (map scan_event batch)).1 now) rows)
      (any_of-ids o.id batch)
    ∙ ap (λ (l : List OutboxRow). published_with batch now o ∷ l) (map-mark_row batch now rows)

abbrev is_left : List OutboxRow → OutboxRow → Bool
is_left batch o = not (has_id o.id batch)

select-published :
    (batch : List OutboxRow) (now : ℕ) (rows : List OutboxRow)
    → select is_waiting (map (published_with batch now) rows)
      ≡ select (is_left batch) (select is_waiting rows)
unfolding select
select-published batch now [] = refl
select-published batch now (o ∷ rows) = ground (arith, select-published batch now rows)

select-other :
    (o : OutboxRow) (batch rows : List OutboxRow)
    → has_id o.id rows ≡ false
    → select (is_left (o ∷ batch)) rows ≡ select (is_left batch) rows
unfolding select exists
select-other o batch [] h = refl
select-other o batch (x ∷ rows) h =
    ground (arith, h, ==ℤ_iff x.id o.id, ==ℤ_iff o.id x.id, select-other o batch rows)

select-all : (rows : List OutboxRow) → select (is_left []) rows ≡ rows
unfolding select exists
select-all [] = refl
select-all (o ∷ rows) = ap (λ (l : List OutboxRow). o ∷ l) (select-all rows)

select-drop :
    (n : ℕ) (rows : List OutboxRow)
    → DistinctIds rows
    → select (is_left (take n rows)) rows ≡ drop n rows
unfolding select exists
select-drop zero rows k = select-all rows
select-drop (suc n) [] k = refl
select-drop (suc n) (o ∷ rows) k =
    ground (arith, ==ℤ_refl o.id, select-drop n rows k.1, select-other o (take n rows) rows k.0)

-- What waits after the batch is the rest.
pub rest-waiting :
    (n now : ℕ) (db : Db)
    → DistinctIds db.outbox
    → Permᴰ
        (select is_waiting (map (published_with (batch_of n db) now) db.outbox))
        (drop n (unpublished db))
unfolding unpublished
rest-waiting n now db k =
    let waiting = select is_waiting db.outbox in
    let rows = order_by older waiting in
    let left = is_left (take n rows) in
    subst (λ l. Permᴰ l (drop n rows)) (sym (select-published (take n rows) now db.outbox))
      (subst (Permᴰ (select left waiting))
        (select-drop n rows
          (DistinctIds-order_by waiting (DistinctIds-select is_waiting db.outbox k)))
        (select-perm left waiting rows (order_by-perm older waiting)))

length-unpublished : (db : Db) → backlog db ≡ length (select is_waiting db.outbox)
unfolding unpublished
length-unpublished db =
    let rows = select is_waiting db.outbox in
    sym (length-perm rows (order_by older rows) (order_by-perm older rows))

-- The backlog is smaller by the batch.
pub backlog-published :
    (n now : ℕ) (db : Db)
    → DistinctIds db.outbox
    → backlog (record db { outbox = map (published_with (batch_of n db) now) db.outbox })
        + length (batch_of n db)
      ≡ backlog db
backlog-published n now db k =
    let rest = drop n (unpublished db) in
    omega (
      arith,
      length-unpublished
          (record db { outbox = map (published_with (batch_of n db) now) db.outbox }),
      length-perm _ rest (rest-waiting n now db k),
      ap length (take-drop n (unpublished db)),
      length-append (batch_of n db) rest,
    )
