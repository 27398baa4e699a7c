-- ===== src/Notification/Consumer/Batches.antt =====
-- What a contract of the handler comes to for the attempts at one record and for one batch.
use equilibra.Common.{ℕ, zero, suc, ◌≡◌, refl, ap, String, some, List, [], ◌∷◌, ◌++◌, All}
use equilibra.Events.Document.{Json}
use equilibra.Publisher.{KafkaRecord}
use equilibra.Notification.Processor.{Handled, finished, retry}
use equilibra.Notification.Consumer.{
  Handler, event_id_of, Attempted, done, given_up, Batch, last_attempt, or_again, attempt, handle,
  or_break, handle_all,
}

-- What a handler may count on, and what it promises: the events that it is asked to handle, the
-- worlds it is called in, and what a nil error means for an event.
pub record Contract (W : Type 0) : Type 1 where
  pub is_asked : String → Json → Type 0
  pub is_sound : W → Type 0
  pub fulfils : String → Json → W → Type 0

-- From one world to another: it is sound still, what was fulfilled stays so, and a success fulfils
-- the event.
pub record Leaves {W : Type 0} (c : Contract W) (event_id : String) (value : Json) (w : W)
    (success : Type 0) (w' : W) : Type 0 where
  pub sound : c.is_sound w'
  pub stays : (j : String) (x : Json) → c.fulfils j x w → c.fulfils j x w'
  pub holds : success → c.fulfils event_id value w'

abbrev pub Keeps : {W : Type 0} → Handler W → Contract W → Type 0
Keeps {W} handler c =
    (event_id : String) (value : Json) (w : W)
    → c.is_asked event_id value
    → c.is_sound w
    → Leaves c event_id value w ((handler event_id value w).0 ≡ finished)
        (handler event_id value w).1

-- Of the event that a record carries.
abbrev pub Fulfilled : {W : Type 0} → Contract W → W → KafkaRecord → Type 0
Fulfilled c w rec = c.fulfils (event_id_of "" rec.headers) rec.value w

abbrev pub IsAsked : {W : Type 0} → Contract W → KafkaRecord → Type 0
IsAsked c rec = c.is_asked (event_id_of "" rec.headers) rec.value

-- What a batch leaves.
pub record BatchLeaves {W : Type 0} (c : Contract W) (recs : List KafkaRecord) (w : W) (b : Batch W)
    : Type 0 where
  pub sound : c.is_sound b.world
  pub fulfilled : All (Fulfilled c b.world) b.finished_records
  pub stays : (j : String) (x : Json) → c.fulfils j x w → c.fulfils j x b.world
  pub left : List KafkaRecord
  pub in_order : recs ≡ b.finished_records ++ left
  pub unbroken : (n : ℕ) → b.patience ≡ some n → left ≡ []

module _ {W : Type 0} (handler : Handler W) (c : Contract W) (kept : Keeps handler c) where
  abbrev world_of : Attempted W → W
  world_of (done n w) = w
  world_of (given_up w) = w

  abbrev IsDone : Attempted W → Type 0
  IsDone (done n w) = Unit
  IsDone (given_up w) = ⊥

  attempt-Leaves :
      (n : ℕ) (event_id : String) (value : Json) (w : W)
      → c.is_asked event_id value
      → c.is_sound w
      → let a = attempt handler n event_id value w in
        Leaves c event_id value w (IsDone a) (world_of a)
  unfolding attempt
  attempt-Leaves zero event_id value w asked sound =
      last (handler event_id value w) (kept event_id value w asked sound)
    where
      last :
          (r : Handled × W)
          → Leaves c event_id value w (r.0 ≡ finished) r.1
          → Leaves c event_id value w
              (IsDone (last_attempt handler r))
              (world_of (last_attempt handler r))
      last (finished, v) k = record { sound = k.sound; stays = k.stays; holds = λ _. k.holds refl }
      last (retry f, v) k = record { sound = k.sound; stays = k.stays; holds = λ e. absurd e }
  attempt-Leaves (suc n) event_id value w asked sound =
      next (λ v. attempt-Leaves n event_id value v asked) (handler event_id value w)
        (kept event_id value w asked sound)
    where
      next :
          ((v : W)
            → c.is_sound v
            → let a = attempt handler n event_id value v in
              Leaves c event_id value v (IsDone a) (world_of a))
          → (r : Handled × W) → Leaves c event_id value w (r.0 ≡ finished) r.1
          → let a = or_again handler n (attempt handler n event_id value) r in
            Leaves c event_id value w (IsDone a) (world_of a)
      next again (finished, v) k = record {
        sound = k.sound;
        stays = k.stays;
        holds = λ _. k.holds refl;
      }
      next again (retry f, v) k =
          let more = again v k.sound in
          record {
            sound = more.sound;
            stays = λ j x h. more.stays j x (k.stays j x h);
            holds = more.holds;
          }

  pub handle_all-BatchLeaves :
      (recs : List KafkaRecord) (n : ℕ) (w : W)
      → All (IsAsked c) recs
      → c.is_sound w
      → BatchLeaves c recs w (handle_all handler recs n w)
  unfolding handle_all handle
  handle_all-BatchLeaves [] n w asked sound = record {
    sound = sound;
    fulfilled = tt;
    stays = λ j x h. h;
    left = [];
    in_order = refl;
    unbroken = λ m e. refl;
  }
  handle_all-BatchLeaves (rec ∷ recs) n w asked sound =
      by_result (λ m v. handle_all-BatchLeaves recs m v asked.1)
        (attempt handler n (event_id_of "" rec.headers) rec.value w)
        (attempt-Leaves n (event_id_of "" rec.headers) rec.value w asked.0 sound)
    where
      by_result :
          ((m : ℕ) (v : W) → c.is_sound v → BatchLeaves c recs v (handle_all handler recs m v))
          → (a : Attempted W)
          → Leaves c (event_id_of "" rec.headers) rec.value w (IsDone a) (world_of a)
          → BatchLeaves c (rec ∷ recs) w (or_break handler rec (handle_all handler recs) a)
      by_result ih (done m v) first =
          let k = ih m v first.sound in
          record {
            sound = k.sound;
            fulfilled = (k.stays _ _ (first.holds tt), k.fulfilled);
            stays = λ j x h. k.stays j x (first.stays j x h);
            left = k.left;
            in_order = ap (λ (l : List KafkaRecord). rec ∷ l) k.in_order;
            unbroken = k.unbroken;
          }
      by_result ih (given_up v) first = record {
        sound = first.sound;
        fulfilled = tt;
        stays = first.stays;
        left = rec ∷ recs;
        in_order = refl;
        unbroken = λ m k. absurd (cc);
      }
