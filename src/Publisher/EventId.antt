-- ===== src/Publisher/EventId.antt =====
-- What the relay sends under an event's id, the consumer reads under it.
use equilibra.Common.{
  ℕ, suc, ◌≡◌, refl, sym, ap, ◌∙◌, ◌⊎◌, inl, inr, String, Bool, true, List, [], ◌∷◌, map, All,
  exists, str_eq, Bool-cases, arith, if◌then◌else◌,
}
use equilibra.Common.Perms.{All-perm}
use mathlib.Core.List.{Permᴰ}
use equilibra.Storage.Querier.Outbox.{OutboxEvent}
use equilibra.Relay.{message, disassemble_events}
use equilibra.Publisher.{KafkaRecord, HeaderOrders, new_records}
use equilibra.Notification.Consumer.{event_id_of}

abbrev Header : Type 0
Header = String × String

abbrev is_id : Header → Bool
is_id (k, v) = str_eq k "event_id"

abbrev AgreesWith : String → Header → Type 0
AgreesWith v p = is_id p ≡ true → p.1 ≡ v

-- The headers name the event's id, and no other.
abbrev NamesId : String → List Header → Type 0
NamesId v hs = All (AgreesWith v) hs × (exists is_id hs ≡ true)

found :
    (v d : String) (hs : List Header)
    → All (AgreesWith v) hs
    → (d ≡ v) ⊎ (exists is_id hs ≡ true)
    → event_id_of d hs ≡ v
unfolding event_id_of exists
found v d [] k (inl h) = h
found v d [] k (inr h) = absurd (cc)
found v d ((n, x) ∷ hs) k h = elim (Bool-cases (str_eq n "event_id")) [
  | inl e ↦ ap (λ b. event_id_of (if b then x else d) hs) e ∙ found v x hs k.1 (inl (k.0 e))
  | inr e ↦
      ap (λ b. event_id_of (if b then x else d) hs) e
      ∙ found v d hs k.1 (elim h [
        | inl i ↦ inl i
        | inr i ↦ inr (sym (ap (λ b. if b then true else exists is_id hs) e) ∙ i)
      ])
]

exists-perm : (hs gs : List Header) → Permᴰ hs gs → exists is_id hs ≡ exists is_id gs
unfolding exists
exists-perm _ _ Permᴰ.nil = refl
exists-perm (a ∷ hs) (b ∷ gs) (Permᴰ.cons e d) = ground (arith, e, exists-perm hs gs d)
exists-perm (a ∷ b ∷ hs) _ (Permᴰ.swap e₁ e₂) = ground (arith, e₁, e₂)
exists-perm hs gs (Permᴰ.trans {l₂ = l} d₁ d₂) = exists-perm hs l d₁ ∙ exists-perm l gs d₂

abbrev pub AreOrders : HeaderOrders → Type 0
AreOrders orders = (n : ℕ) (hs : List Header) → Permᴰ hs (orders n hs)

message-id :
    (e : OutboxEvent) (gs : List Header)
    → Permᴰ (message e).headers gs
    → event_id_of "" gs ≡ e.event_id
unfolding exists
message-id e gs p =
    found e.event_id "" gs
      (All-perm (AgreesWith e.event_id) _ gs p ((λ h. refl), ((λ h. absurd (cc)), tt)))
      (inr (sym (exists-perm _ gs p) ∙ refl))

abbrev pub id_of : KafkaRecord → String
id_of rec = event_id_of "" rec.headers

-- Whatever order the headers of each record are in, the records of a batch carry its outbox events:
-- in the events' order, each record has its event's partition key and its payload, and the
-- id that the consumer reads in its headers is the event's.
pub new_records-events :
    (orders : HeaderOrders)
    → AreOrders orders
    → (es : List OutboxEvent)
    → let recs = new_records orders (disassemble_events es).0 in
      (map id_of recs ≡ map (λ e. e.event_id) es)
      × (map (λ rec. rec.value) recs ≡ map (λ e. e.payload) es)
      × (map (λ rec. rec.key) recs ≡ map (λ e. e.partition_key) es)
unfolding new_records disassemble_events
new_records-events orders k [] = (refl, refl, refl)
new_records-events orders k (e ∷ es) =
    let rest = new_records-events (λ n. orders (suc n)) (λ n. k (suc n)) es in
    (
      ap (λ i. i ∷ map id_of (new_records (λ n. orders (suc n)) (disassemble_events es).0))
            (message-id e (orders 0 (message e).headers) (k 0 (message e).headers))
          ∙ ap (λ l. e.event_id ∷ l) rest.0,
      ap (λ l. e.payload ∷ l) rest.1,
      ap (λ l. e.partition_key ∷ l) rest.2,
    )
