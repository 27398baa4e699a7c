-- ===== src/Relay/Gauge.antt =====
-- The gauge of cmd/relay/main.go: the age of the oldest unpublished event, read at each scrape.
use equilibra.Common.{
  arith, ℕ, ◌≢◌, All, ◌≡◌, refl, sym, ◌∙◌, ◌⊎◌, inl, inr, Bool, true, false, Option, none, some,
  List, [], ◌∷◌,
}
use equilibra.Common.Int.{ℤ, pos, eq_of_parts, +ℤ_parts, -ℤ_parts, ◌+ℤ◌, ◌-ℤ◌}
use equilibra.Errors.{Outcome, ok, err}
use equilibra.Storage.Session.{Db, OutboxRow, run_statement, statement}
use equilibra.Storage.Querier.Outbox.{unpublished, age_of_first, oldest_unpublished_outbox_age}
use equilibra.Storage.WithTx.{World, Conditions, Commit, with_tx, run_tx, finish, open_session}
use equilibra.Service.Idempotency.{IsCalm}
use equilibra.Relay.Oldest.{IsOldest, first-IsOldest, none-waiting}

-- `math.NaN()` is none.
abbrev gauge_value : Outcome ℤ → Option ℤ
gauge_value (ok secs) = some secs
gauge_value (err e) = none

abbrev gauged : Outcome ℤ × World → Option ℤ × World
gauged (o, w) = (gauge_value o, w)

unfoldable pub outbox_age : Conditions → World → Option ℤ × World
outbox_age c w = gauged (with_tx c oldest_unpublished_outbox_age w)

-- The tables are as they were, and the value, if there is one, is the age of the first unpublished
-- event.
abbrev Read : Conditions → World → Option ℤ × World → Type 0
Read c w (o, w') =
    (w'.db ≡ w.db) × ((o ≡ none) ⊎ (o ≡ some (age_of_first c.now (unpublished w.db))))

finish-Read :
    (c : Conditions) (w : World) (m : Commit) (faults : List Bool)
    → Read c w (
        gauged (
          finish m w (
            run_statement faults
              (λ s. (ok (age_of_first s.now (unpublished s.db)), s))
              (open_session c w))))
finish-Read c w Commit.acknowledged [] = (refl, inr refl)
finish-Read c w Commit.refused [] = (refl, inl refl)
finish-Read c w Commit.applied_unheard [] = (refl, inl refl)
finish-Read c w Commit.acknowledged (false ∷ rest) = (refl, inr refl)
finish-Read c w Commit.refused (false ∷ rest) = (refl, inl refl)
finish-Read c w Commit.applied_unheard (false ∷ rest) = (refl, inl refl)
finish-Read c w Commit.acknowledged (true ∷ rest) = (refl, inl refl)
finish-Read c w Commit.refused (true ∷ rest) = (refl, inl refl)
finish-Read c w Commit.applied_unheard (true ∷ rest) = (refl, inl refl)

run_tx-Read :
    (begins : Bool) (c : Conditions) (w : World)
    → Read c w (gauged (run_tx begins c oldest_unpublished_outbox_age w))
unfolding oldest_unpublished_outbox_age statement
run_tx-Read true c w = finish-Read c w c.commit c.faults
run_tx-Read false c w = (refl, inl refl)

run_tx_calm :
    (c : Conditions) (w : World)
    → IsCalm c
    → gauge_value (run_tx c.begins c oldest_unpublished_outbox_age w).0
      ≡ some (age_of_first c.now (unpublished w.db))
unfolding oldest_unpublished_outbox_age statement
run_tx_calm c w calm = simp (calm.begins, calm.faults, calm.commit)

-- The age at a time of the waiting event with the smallest id: zero if none waits, and otherwise from
-- the event's creation to that time.
abbrev pub IsAge : ℕ → List OutboxRow → ℤ → Type 0
IsAge now rows v =
    (All (λ (x : OutboxRow). x.published_at ≢ none) rows × (v ≡ pos 0))
    ⊎ ((o : OutboxRow) × IsOldest o rows × (v +ℤ pos o.created_at ≡ pos now))

sum_of_difference : (a b : ℕ) → (pos a -ℤ pos b) +ℤ pos b ≡ pos a
sum_of_difference a b =
    eq_of_parts (pos a -ℤ pos b +ℤ pos b) (pos a)
      (omega (arith, -ℤ_parts (pos a) (pos b), +ℤ_parts (pos a -ℤ pos b) (pos b)))

age_of_first-IsAge : (now : ℕ) (db : Db) → IsAge now db.outbox (age_of_first now (unpublished db))
age_of_first-IsAge now db = by_first (unpublished db) refl
  where
    by_first :
        (rows : List OutboxRow)
        → unpublished db ≡ rows
        → IsAge now db.outbox (age_of_first now rows)
    by_first [] e = inl (none-waiting db e, refl)
    by_first (o ∷ later) e = inr (o, first-IsOldest db e, sum_of_difference now o.created_at)

-- What a scrape comes to: no value only where something fails.
abbrev pub Scraped : Conditions → World → Option ℤ × World → Type 0
Scraped c w (o, w') =
    (w'.db ≡ w.db)
    × (((o ≡ none) × ¬ IsCalm c) ⊎ ((v : ℤ) × (o ≡ some v) × IsAge c.now w.db.outbox v))

-- A scrape leaves the tables as they were, and its value is the age of the waiting event with the
-- smallest id: zero if every row of the outbox has a time of publication, and otherwise the time since
-- the creation of a row without one, where no row without one has a smaller id; it is no number only
-- where something fails.
pub outbox_age-Scraped : (c : Conditions) (w : World) → Scraped c w (outbox_age c w)
unfolding outbox_age with_tx
outbox_age-Scraped c w =
    let (same, value) = run_tx-Read c.begins c w in
    (
      same,
      elim value [
        | inl missing ↦ inl (missing, λ calm. cc (sym missing ∙ run_tx_calm c w calm))
        | inr age ↦ inr (_, age, age_of_first-IsAge c.now w.db)
      ],
    )
