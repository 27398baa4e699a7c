-- ===== src/Notification/Redis.antt =====
-- What the notification service relies on of Redis: the commands that internal/notification/dedup.go
-- and internal/notification/pubsub.go send, on a state of which only the answers are known. A time
-- is a number of seconds, the same for all. A command whose answer is lost may have been applied, and
-- the client may send it again: so `SetNX` can answer false for a value that it has set itself, and
-- a message can be published more than once.
use equilibra.Common.{
  ℕ, zero, suc, ◌+◌, ◌≤◌, ◌≡◌, ◌≢◌, ◌⊎◌, String, Bool, true, false, Option, none, some, List, [],
  ◌∷◌, ◌++◌, ltb, str_eq, if◌then◌else◌,
}
use equilibra.Events.Document.{Json}

pub data Answer (A : Type 0) : Type 0 where
  answered : A → Answer A
  failed : Answer A

pub record Redis (S : Type 0) : Type 0 where
  -- What `GET` would answer at a time, if nothing else happened until then.
  pub value : String → ℕ → S → Option String
  -- All that has been published, with its channel, in order.
  pub log : S → List (String × Json)
  -- `SET key value NX EX ttl`, at a time.
  pub set_nx : String → String → ℕ → ℕ → S → Answer Bool × S
  pub get : String → ℕ → S → Answer (Option String) × S
  -- `SET key value EX ttl`, at a time.
  pub set : String → String → ℕ → ℕ → S → Answer (Unit {0}) × S
  pub publish : String → Json → S → Answer (Unit {0}) × S

-- What has been published as often as it was sent.
abbrev pub copies : ℕ → String × Json → List (String × Json)
copies zero x = []
copies (suc n) x = x ∷ copies n x

module _ {S : Type 0} (redis : Redis S) where
  open redis use {value, log, set_nx, get, set, publish}

  abbrev pub SameValues : S → S → Type 0
  SameValues s s' = (k : String) (u : ℕ) → value k u s' ≡ value k u s

  -- From time `t` the key has the value for `ttl`; the other keys are as they were.
  abbrev pub Stored : String → String → ℕ → ℕ → S → S → Type 0
  Stored k v ttl t s s' =
      (j : String) (u : ℕ)
      → t ≤ u
      → value j u s'
        ≡ (if str_eq k j then (if ltb u (t + ttl) then some v else none) else value j u s)

  abbrev pub SetNxAnswers : String → String → ℕ → ℕ → S → Answer Bool × S → Type 0
  SetNxAnswers k v ttl t s (answered true, s') = (value k t s ≡ none) × Stored k v ttl t s s'
  SetNxAnswers k v ttl t s (answered false, s') =
      ((value k t s ≢ none) × SameValues s s') ⊎ ((value k t s ≡ none) × Stored k v ttl t s s')
  SetNxAnswers k v ttl t s (failed, s') =
      SameValues s s' ⊎ ((value k t s ≡ none) × Stored k v ttl t s s')

  abbrev pub GetAnswers : String → ℕ → S → Answer (Option String) × S → Type 0
  GetAnswers k t s (answered r, s') = (r ≡ value k t s) × SameValues s s'
  GetAnswers k t s (failed, s') = SameValues s s'

  abbrev pub SetAnswers : String → String → ℕ → ℕ → S → Answer (Unit {0}) × S → Type 0
  SetAnswers k v ttl t s (answered done, s') = Stored k v ttl t s s'
  SetAnswers k v ttl t s (failed, s') = SameValues s s' ⊎ Stored k v ttl t s s'

  abbrev pub PublishAnswers : String → Json → S → Answer (Unit {0}) × S → Type 0
  PublishAnswers c m s (answered done, s') = (n : ℕ) × (log s' ≡ log s ++ copies (suc n) (c, m))
  PublishAnswers c m s (failed, s') = (n : ℕ) × (log s' ≡ log s ++ copies n (c, m))

  -- The documented behaviour of the commands.
  pub record IsRedis : Type 0 where
    pub set_nx_answers :
        (k v : String) (ttl t : ℕ) (s : S) → SetNxAnswers k v ttl t s (set_nx k v ttl t s)
    pub get_answers : (k : String) (t : ℕ) (s : S) → GetAnswers k t s (get k t s)
    pub set_answers : (k v : String) (ttl t : ℕ) (s : S) → SetAnswers k v ttl t s (set k v ttl t s)
    pub publish_answers : (c : String) (m : Json) (s : S) → PublishAnswers c m s (publish c m s)
    pub set_nx-log : (k v : String) (ttl t : ℕ) (s : S) → log (set_nx k v ttl t s).1 ≡ log s
    pub get-log : (k : String) (t : ℕ) (s : S) → log (get k t s).1 ≡ log s
    pub set-log : (k v : String) (ttl t : ℕ) (s : S) → log (set k v ttl t s).1 ≡ log s
    pub publish-values : (c : String) (m : Json) (s : S) → SameValues s (publish c m s).1
