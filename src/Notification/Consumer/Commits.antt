-- ===== src/Notification/Consumer/Commits.antt =====
-- What is committed has been handled to the end, and nothing that was fetched is passed over.
use equilibra.Common.{
  ℕ, ◌≡◌, refl, sym, ap, ◌∙◌, String, Bool, true, false, Option, none, some, List, [], ◌∷◌, ◌++◌,
  All, All-append, if◌then◌else◌,
}
use mathlib.Core.List.{append_assoc}
use equilibra.Events.Document.{Json}
use equilibra.Publisher.{KafkaRecord}
use equilibra.Notification.Consumer.{
  Handler, Batch, Round, Progress, handle_all, after_batch, next_round, run,
}
use equilibra.Notification.Consumer.Batches.{
  Contract, Keeps, Fulfilled, IsAsked, BatchLeaves, handle_all-BatchLeaves,
}

-- Nothing has been handled.
abbrev pub start_of : {W : Type 0} → ℕ → W → Progress W
start_of patience w = record {
  world = w;
  patience = patience;
  finished_records = [];
  committed = [];
}

abbrev pub all_fetched : List Round → List KafkaRecord
all_fetched [] = []
all_fetched (round ∷ rounds) = round.fetched ++ all_fetched rounds

abbrev pub AreAsked : {W : Type 0} → Contract W → List Round → Type 0
AreAsked c rounds = All (λ round. All (IsAsked c) round.fetched) rounds

module _ {W : Type 0} (handler : Handler W) (c : Contract W) (kept : Keeps handler c) where
  record RunLeaves (fetched : List KafkaRecord) (g g' : Progress W) : Type 0 where
    pub sound : c.is_sound g'.world
    pub fulfilled : All (Fulfilled c g.world) g.committed → All (Fulfilled c g'.world) g'.committed
    pub left : List KafkaRecord
    pub in_order : g.finished_records ++ fetched ≡ g'.finished_records ++ left

  All-stays :
      (w w' : W) (recs : List KafkaRecord)
      → ((event_id : String) (value : Json)
          → c.fulfils event_id value w
          → c.fulfils event_id value w')
      → All (Fulfilled c w) recs
      → All (Fulfilled c w') recs
  All-stays w w' [] stays h = tt
  All-stays w w' (rec ∷ recs) stays h = (stays _ _ h.0, All-stays w w' recs stays h.1)

  Fulfilled-committed :
      (w : W) (commits : Bool) (recs : List KafkaRecord)
      → All (Fulfilled c w) recs
      → All (Fulfilled c w) (if commits then recs else [])
  Fulfilled-committed w true recs h = h
  Fulfilled-committed w false recs h = tt

  -- One round that is not the last.
  after_batch-RunLeaves :
      (round : Round) (more : List KafkaRecord) (g : Progress W) (b : Batch W) (n : ℕ)
      → BatchLeaves c round.fetched g.world b
      → RunLeaves (round.fetched ++ more) g (after_batch handler round g b n)
  after_batch-RunLeaves round more g b n k = record {
    sound = k.sound;
    fulfilled = λ h.
        All-append (Fulfilled c b.world) g.committed _
          (All-stays g.world b.world g.committed k.stays h)
          (Fulfilled-committed b.world round.commits b.finished_records k.fulfilled);
    left = k.left ++ more;
    in_order =
        ap (λ l. g.finished_records ++ (l ++ more)) k.in_order
        ∙ ap (λ l. g.finished_records ++ l) (append_assoc b.finished_records k.left more)
        ∙ sym (append_assoc g.finished_records b.finished_records (k.left ++ more));
  }

  RunLeaves-trans :
      (first more : List KafkaRecord) (g g' g'' : Progress W)
      → (fg : RunLeaves (first ++ more) g g') → fg.left ≡ more
      → RunLeaves more g' g''
      → RunLeaves (first ++ more) g g''
  RunLeaves-trans first more g g' g'' a is b = record {
    sound = b.sound;
    fulfilled = λ h. b.fulfilled (a.fulfilled h);
    left = b.left;
    in_order = a.in_order ∙ ap (λ l. g'.finished_records ++ l) is ∙ b.in_order;
  }

  run-RunLeaves :
      (rounds : List Round) (g : Progress W)
      → AreAsked c rounds
      → c.is_sound g.world
      → RunLeaves (all_fetched rounds) g (run handler rounds g)
  unfolding run after_batch-RunLeaves
  run-RunLeaves [] g asked sound = record {
    sound = sound;
    fulfilled = λ h. h;
    left = [];
    in_order = refl;
  }
  run-RunLeaves (round ∷ rounds) g asked sound =
      let b = handle_all handler round.fetched g.patience g.world in
      unless_stopped round.stopped (
        by_patience b.patience b
          (handle_all-BatchLeaves handler c kept round.fetched g.patience g.world asked.0 sound)
          refl (λ g'. run-RunLeaves rounds g' asked.1))
    where
      unless_stopped :
          (stop : Bool) {later : Progress W}
          → RunLeaves (round.fetched ++ all_fetched rounds) g later
          → RunLeaves (round.fetched ++ all_fetched rounds) g (if stop then g else later)
      unless_stopped true k = record {
        sound = sound;
        fulfilled = λ h. h;
        left = round.fetched ++ all_fetched rounds;
        in_order = refl;
      }
      unless_stopped false k = k

      by_context :
          (cancelled : Bool) {g' g'' : Progress W}
          → (fg : RunLeaves (round.fetched ++ all_fetched rounds) g g')
          → fg.left ≡ all_fetched rounds
          → RunLeaves (all_fetched rounds) g' g''
          → RunLeaves (round.fetched ++ all_fetched rounds) g (if cancelled then g' else g'')
      by_context true fg is later = fg
      by_context false {g'} {g''} fg is later =
          RunLeaves-trans round.fetched (all_fetched rounds) g g' g'' fg is later

      by_patience :
          (o : Option ℕ) (b : Batch W)
          → BatchLeaves c round.fetched g.world b
          → b.patience ≡ o
          → ((g' : Progress W)
              → c.is_sound g'.world
              → RunLeaves (all_fetched rounds) g' (run handler rounds g'))
          → RunLeaves
              (round.fetched ++ all_fetched rounds)
              g
              (next_round handler round g (run handler rounds) b o)
      by_patience none b k e ih = after_batch-RunLeaves round (all_fetched rounds) g b 0 k
      by_patience (some n) b k e ih =
          by_context round.cancelled (after_batch-RunLeaves round (all_fetched rounds) g b n k)
            (ap (λ l. l ++ all_fetched rounds) (k.unbroken n e))
            (ih (after_batch handler round g b n) k.sound)

  -- For a handler that keeps a contract, from a sound world with nothing handled, whatever is fetched
  -- that it may be asked, fails and is committed: every record in a successful commit is fulfilled,
  -- and the records passed to commits are, in order, an initial part of those
  -- fetched: none is passed over.
  pub run-commits :
      (rounds : List Round) (patience : ℕ) (w : W)
      → AreAsked c rounds
      → c.is_sound w
      → let g = run handler rounds (start_of patience w) in
        All (Fulfilled c g.world) g.committed
        × ((left : List KafkaRecord) × (all_fetched rounds ≡ g.finished_records ++ left))
  run-commits rounds patience w asked sound =
      let k = run-RunLeaves rounds (start_of patience w) asked sound in
      (k.fulfilled tt, (k.left, k.in_order))
