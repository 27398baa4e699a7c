-- ===== src/Relay/Rows.antt =====
-- Which rows of the outbox a batch reads, and what marking does to the others.
use equilibra.Common.{
  ◌≡◌, refl, sym, ap, ◌∙◌, inl, inr, ℕ, true, false, List, [], ◌∷◌, map, take, exists, All,
  Bool-cases,
}
use mathlib.Core.List.{Memᴰ}
use equilibra.Common.Int.{ℤ, pos, negsuc, ◌==ℤ◌, ==ℤ_iff}
use equilibra.Errors.{Outcome, ok}
use equilibra.Storage.Session.{Db, OutboxRow, Session}
use equilibra.Storage.Session.Inversion.{bind-ok, raise_if-ok, statement-ok}
use equilibra.Storage.Querier.Outbox.{
  OutboxEvent, scan_event, unpublished, try_lock_outbox, get_unpublished_outbox_events, any_of,
  mark_row, mark_outbox_events_published,
}
use equilibra.Relay.{Message, message, disassemble_events, pending_events}

-- The primary key, for one row.
abbrev pub OnlyWithItsId : OutboxRow → List OutboxRow → Type 0
OnlyWithItsId o rows = All (λ (e : OutboxRow). e.id ≡ o.id → e ≡ o) rows

-- The row is in the outbox as it was, so still unpublished.
abbrev pub Waits : OutboxRow → Db → Type 0
Waits o db = Memᴰ o db.outbox × OnlyWithItsId o db.outbox

abbrev pub Taken : OutboxRow → List Message → Type 0
Taken o taken = Memᴰ (message (scan_event o)) taken

-- A marked id is that of a message.
pub disassembled-Taken :
    (o : OutboxRow) (rows : List OutboxRow)
    → OnlyWithItsId o rows
    → any_of (disassemble_events (map scan_event rows)).1 o.id ≡ true
    → Taken o (disassemble_events (map scan_event rows)).0
unfolding any_of disassemble_events exists
disassembled-Taken o [] h found = absurd (cc)
disassembled-Taken o (e ∷ es) h found = elim (Bool-cases (e.id ==ℤ o.id)) [
  | inl same ↦
      Memᴰ.head
        (ap (λ (x : OutboxRow). message (scan_event x)) (sym (h.0 ((==ℤ_iff e.id o.id).0 same))))
  | inr other ↦ Memᴰ.tail (disassembled-Taken o es h.1 (rw other at found))
]

mark_row-id : (ids : List ℤ) (now : ℕ) (x : OutboxRow) → (mark_row ids now x).id ≡ x.id
mark_row-id ids now x = elim (Bool-cases (any_of ids x.id)) [
  | inl m ↦ rw m refl
  | inr u ↦ rw u refl
]

mark_row-other :
    (ids : List ℤ) (now : ℕ) (o : OutboxRow) → any_of ids o.id ≡ false → mark_row ids now o ≡ o
mark_row-other ids now o other = rw other refl

pub marked-Memᴰ :
    (o : OutboxRow) (ids : List ℤ) (now : ℕ) (rows : List OutboxRow)
    → any_of ids o.id ≡ false
    → Memᴰ o rows
    → Memᴰ o (map (mark_row ids now) rows)
marked-Memᴰ o ids now [] other m = elim m [ ]
marked-Memᴰ o ids now (x ∷ xs) other (Memᴰ.head e) =
    Memᴰ.head (sym (mark_row-other ids now o other) ∙ ap (mark_row ids now) e)
marked-Memᴰ o ids now (x ∷ xs) other (Memᴰ.tail m) = Memᴰ.tail (marked-Memᴰ o ids now xs other m)

pub marked-OnlyWithItsId :
    (o : OutboxRow) (ids : List ℤ) (now : ℕ) (rows : List OutboxRow)
    → any_of ids o.id ≡ false
    → OnlyWithItsId o rows
    → OnlyWithItsId o (map (mark_row ids now) rows)
marked-OnlyWithItsId o ids now [] other h = tt
marked-OnlyWithItsId o ids now (x ∷ xs) other h = (
  λ e.
      ap (mark_row ids now) (h.0 (sym (mark_row-id ids now x) ∙ e))
      ∙ mark_row-other ids now o other,
  marked-OnlyWithItsId o ids now xs other h.1,
)

ok-session :
    {A : Type 0} {a b : A} {s t : Session}
    → ◌≡◌ {A = Outcome A × Session} (ok a, s) (ok b, t)
    → s ≡ t
ok-session h = ap (λ x. x.1) h

ok-value :
    {A : Type 0} {a b : A} {s t : Session}
    → ◌≡◌ {A = Outcome A × Session} (ok a, s) (ok b, t)
    → a ≡ b
ok-value h = cc

-- The read leaves the tables, and what it yields are rows of the outbox.
read-rows :
    (batch_size : ℤ) (s : Session) {events : List OutboxEvent} {t : Session}
    → get_unpublished_outbox_events batch_size s ≡ (ok events, t)
    → (t.db ≡ s.db) × ((n : ℕ) × (events ≡ map scan_event (take n (unpublished s.db))))
unfolding get_unpublished_outbox_events
read-rows (pos n) s h =
    let (u, same, ran) = statement-ok _ s h in
    (
      ap (λ (d : Session). d.db) (sym (ok-session ran)) ∙ same.db,
      (n, sym (ok-value ran) ∙ ap (λ d. map scan_event (take n (unpublished d))) same.db),
    )
read-rows (negsuc n) s h = let (u, same, ran) = statement-ok _ s h in absurd (cc)

pub pending-rows :
    (batch_size : ℤ) (s : Session) {events : List OutboxEvent} {t : Session}
    → pending_events batch_size s ≡ (ok events, t)
    → (t.db ≡ s.db) × ((n : ℕ) × (events ≡ map scan_event (take n (unpublished s.db))))
unfolding pending_events try_lock_outbox
pending-rows batch_size s h =
    let (is_open, u, locked, rest) = bind-ok try_lock_outbox _ s h in
    let (v, same, ran) = statement-ok _ s locked in
    let (_, read) = raise_if-ok _ _ (get_unpublished_outbox_events batch_size) u rest in
    let (left, (n, rows)) = read-rows batch_size u read in
    let start = ap (λ (d : Session). d.db) (sym (ok-session ran)) ∙ same.db in
    (left ∙ start, (n, rows ∙ ap (λ d. map scan_event (take n (unpublished d))) start))

pub mark-outbox :
    (ids : List ℤ) (s : Session) {done : Unit {0}} {t : Session}
    → mark_outbox_events_published ids s ≡ (ok done, t)
    → t.db.outbox ≡ map (mark_row ids s.now) s.db.outbox
unfolding mark_outbox_events_published
mark-outbox ids s h =
    let (u, same, ran) = statement-ok _ s h in
    ap (λ (d : Session). d.db.outbox) (sym (ok-session ran))
    ∙ ap (λ k. map (mark_row ids k) u.db.outbox) same.now
    ∙ ap (λ (d : Db). map (mark_row ids s.now) d.outbox) same.db
