-- ===== src/Notification/Tests/InMemory.antt =====
-- A Redis in memory that answers every command.
use equilibra.Common.{
  ◌≢◌, inl, ℕ, ◌+◌, ◌≡◌, refl, String, Bool, true, false, Option, none, some, List, [], ◌∷◌, ◌++◌,
  ltb, str_eq, if◌then◌else◌,
}
use equilibra.Events.{EntryPosted}
use equilibra.Events.Document.{Json}
use equilibra.Notification.Processor.Alone.{IsAnswering}
use equilibra.Notification.Redis.{Redis, IsRedis, Answer, answered, SetNxAnswers, Stored}

-- Each key's value and the time when it expires, and the log.
pub record Memory : Type 0 where
  pub keys : String → Option (String × ℕ)
  pub log : List (String × Json)

abbrev pub alive : Option (String × ℕ) → ℕ → Option String
alive none t = none
alive (some (v, until)) t = if ltb t until then some v else none

abbrev pub stored : String → String → ℕ → Memory → Memory
stored k v until s = record s { keys = λ j. if str_eq k j then some (v, until) else s.keys j }

abbrev set_if_none : String → String → ℕ → Memory → Option String → Answer Bool × Memory
set_if_none k v until s none = (answered true, stored k v until s)
set_if_none k v until s (some x) = (answered false, s)

abbrev pub memory : Redis Memory
memory = record {
  value = λ k t s. alive (s.keys k) t;
  log = λ s. s.log;
  set_nx = λ k v ttl t s. set_if_none k v (t + ttl) s (alive (s.keys k) t);
  get = λ k t s. (answered (alive (s.keys k) t), s);
  set = λ k v ttl t s. (answered tt, stored k v (t + ttl) s);
  publish = λ c m s. (answered tt, record s { log = s.log ++ (c, m) ∷ [] });
}

stored-Stored :
    (k v : String) (ttl t : ℕ) (s : Memory) → Stored memory k v ttl t s (stored k v (t + ttl) s)
stored-Stored k v ttl t s j u le = by_key (str_eq k j)
  where
    by_key :
        (b : Bool)
        → alive (if b then some (v, t + ttl) else s.keys j) u
          ≡ (if b then (if ltb u (t + ttl) then some v else none) else alive (s.keys j) u)
    by_key true = refl
    by_key false = refl

memory-SetNxAnswers :
    (k v : String) (ttl t : ℕ) (s : Memory)
    → (o : Option String) → alive (s.keys k) t ≡ o
    → SetNxAnswers memory k v ttl t s (set_if_none k v (t + ttl) s o)
memory-SetNxAnswers k v ttl t s none e = (e, stored-Stored k v ttl t s)
memory-SetNxAnswers k v ttl t s (some x) e = inl ((λ h. absurd (cc)), λ j u. refl)

set_nx-same_log :
    (k v : String) (until : ℕ) (s : Memory) (o : Option String)
    → (set_if_none k v until s o).1.log ≡ s.log
set_nx-same_log k v until s none = refl
set_nx-same_log k v until s (some x) = refl

set_if_none-answered :
    (k v : String) (until : ℕ) (s : Memory) (o : Option String)
    → (b : Bool) × (s' : Memory) × (set_if_none k v until s o ≡ (answered b, s'))
set_if_none-answered k v until s none = (true, _, refl)
set_if_none-answered k v until s (some x) = (false, _, refl)

set_if_none-held :
    (k v : String) (until : ℕ) (s : Memory) (o : Option String) {s' : Memory}
    → set_if_none k v until s o ≡ (answered false, s')
    → o ≢ none
set_if_none-held k v until s none e = absurd (cc)
set_if_none-held k v until s (some x) e = λ h. absurd (cc)

pub memory-IsAnswering : (decode : Json → Option EntryPosted) → IsAnswering memory decode
memory-IsAnswering decode = record {
  set_nx_answered = λ k v ttl t s. set_if_none-answered k v (t + ttl) s (alive (s.keys k) t);
  set_nx_once = λ k v ttl t s e. set_if_none-held k v (t + ttl) s (alive (s.keys k) t) e;
  get_answered = λ k t s. (_, _, refl);
  set_answered = λ k v ttl t s. (_, refl);
  publish_answered = λ c m s. (_, refl);
}

pub memory-IsRedis : IsRedis memory
memory-IsRedis = record {
  set_nx_answers = λ k v ttl t s. memory-SetNxAnswers k v ttl t s (alive (s.keys k) t) refl;
  get_answers = λ k t s. (refl, λ j u. refl);
  set_answers = λ k v ttl t s. stored-Stored k v ttl t s;
  publish_answers = λ c m s. (0, refl);
  set_nx-log = λ k v ttl t s. set_nx-same_log k v (t + ttl) s (alive (s.keys k) t);
  get-log = λ k t s. refl;
  set-log = λ k v ttl t s. refl;
  publish-values = λ c m s k u. refl;
}

abbrev pub empty : Memory
empty = record { keys = λ k. none; log = [] }
