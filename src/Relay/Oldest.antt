-- ===== src/Relay/Oldest.antt =====
-- The first unpublished event has the smallest id of those that wait.
use equilibra.Common.{
  ℕ, ◌≡◌, ◌≢◌, refl, sym, subst, ◌∙◌, true, false, Option, none, some, List, [], ◌∷◌, select, All,
  All-select, arith, if◌then◌else◌,
}
use equilibra.Common.Perms.{All-perm, order_by-perm}
use mathlib.Core.List.{Permᴰ, Memᴰ}
use mathlib.Core.List.Permᴰ
use equilibra.Common.Int.{◌≤ℤ◌}
use equilibra.Storage.Session.{Db, OutboxRow}
use equilibra.Storage.Querier.Outbox.{older, unpublished}
use equilibra.Relay.Order.{is_waiting, Ascending, Ascending-order_by}

All-unselected :
    (P : OutboxRow → Type 0) (rows : List OutboxRow)
    → All P (select is_waiting rows)
    → All (λ (o : OutboxRow). o.published_at ≡ none → P o) rows
unfolding select
All-unselected P [] h = tt
All-unselected P (o ∷ rows) h = by_test o.published_at refl h (All-unselected P rows)
  where
    by_test :
        (t : Option ℕ)
        → o.published_at ≡ t
        → All P (
            if (elim t [ none ↦ true | some u ↦ false ])
            then o ∷ select is_waiting rows
            else select is_waiting rows)
        → (All P (select is_waiting rows)
            → All (λ (x : OutboxRow). x.published_at ≡ none → P x) rows)
        → (o.published_at ≡ none → P o) × All (λ (x : OutboxRow). x.published_at ≡ none → P x) rows
    by_test none e k more = ((λ _. k.0), more k.1)
    by_test (some u) e k more = ((λ f. absurd (cc (sym e ∙ f))), more k)

All-waiting :
    (rows : List OutboxRow)
    → All (λ (o : OutboxRow). o.published_at ≡ none) (select is_waiting rows)
unfolding select
All-waiting [] = tt
All-waiting (o ∷ rows) = by_test o.published_at refl (All-waiting rows)
  where
    by_test :
        (t : Option ℕ)
        → o.published_at ≡ t
        → All (λ (x : OutboxRow). x.published_at ≡ none) (select is_waiting rows)
        → All
            (λ (x : OutboxRow). x.published_at ≡ none)
            (if (elim t [ none ↦ true | some u ↦ false ])
              then o ∷ select is_waiting rows
              else select is_waiting rows)
    by_test none e more = (e, more)
    by_test (some u) e more = more

All-Memᴰ : (rows : List OutboxRow) → All (λ (o : OutboxRow). Memᴰ o rows) rows
All-Memᴰ rows = within rows rows (λ o m. m)
  where
    within :
        (all part : List OutboxRow)
        → ((o : OutboxRow) → Memᴰ o part → Memᴰ o all)
        → All (λ (o : OutboxRow). Memᴰ o all) part
    within all [] inside = tt
    within all (o ∷ part) inside =
        (inside o (Memᴰ.head refl), within all part (λ x m. inside x (Memᴰ.tail m)))

-- The row waits, and no waiting row has a smaller id.
pub record IsOldest (o : OutboxRow) (rows : List OutboxRow) : Type 0 where
  pub there : Memᴰ o rows
  pub waits : o.published_at ≡ none
  pub first : All (λ (x : OutboxRow). x.published_at ≡ none → o.id ≤ℤ x.id) rows

pub first-IsOldest :
    (db : Db) {o : OutboxRow} {later : List OutboxRow}
    → unpublished db ≡ o ∷ later
    → IsOldest o db.outbox
unfolding unpublished
first-IsOldest db {o} {later} e =
    let rows = select is_waiting db.outbox in
    let d : Permᴰ rows (o ∷ later) = subst (Permᴰ rows) e (order_by-perm older rows) in
    let sorted : Ascending (o ∷ later) = subst Ascending e (Ascending-order_by rows) in
    record {
      there =
          (All-perm (λ x. Memᴰ x db.outbox) rows (o ∷ later) d
            (All-select (λ x. Memᴰ x db.outbox) is_waiting db.outbox (All-Memᴰ db.outbox))).0;
      waits =
          (All-perm (λ (x : OutboxRow). x.published_at ≡ none) rows (o ∷ later) d
            (All-waiting db.outbox)).0;
      first =
          All-unselected (λ (x : OutboxRow). o.id ≤ℤ x.id) db.outbox
            (All-perm (λ (x : OutboxRow). o.id ≤ℤ x.id) (o ∷ later) rows (Permᴰ.symm d)
              (omega arith, sorted.0));
    }

pub none-waiting :
    (db : Db) → unpublished db ≡ [] → All (λ (x : OutboxRow). x.published_at ≢ none) db.outbox
unfolding unpublished
none-waiting db e =
    let rows = select is_waiting db.outbox in
    All-unselected (λ x. ⊥) db.outbox
      (All-perm (λ x. ⊥) [] rows (Permᴰ.symm (subst (Permᴰ rows) e (order_by-perm older rows))) tt)
