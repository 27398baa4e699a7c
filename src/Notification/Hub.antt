-- ===== src/Notification/Hub.antt =====
-- internal/notification/hub.go. A `*client` is an index into a heap of client objects; the nested
-- maps are an association list from an account to the set of its clients. Each operation runs
-- under the hub's mutex, so it is one step; `Send` is one step for each client of its copy.
pub mod Table
pub mod Registered
pub mod Invariant
pub mod Connections
pub mod Sending
pub mod Disconnecting
mod Tests
use equilibra.Common.{
  ℕ, suc, ◌+◌, Bool, true, false, not, List, [], ◌∷◌, ◌++◌, length, select, ltb, ◌==◌,
  if◌then◌else◌,
}
use equilibra.Common.Int.{ℤ}
use equilibra.Events.Document.{Json}
use Table.{ClientSets, members, has_key, put, delete, entries}

-- The websocket status codes in use; a new client has none.
pub data Status : Type 0 where
  unset normal_closure going_away policy_violation : Status

pub record Client : Type 0 where
  pub send : List Json
  pub done : Bool
  pub reason : Status

-- `next` is the next address to be allocated.
pub record Hub : Type 0 where
  pub clients : ClientSets
  pub heap : ℕ → Client
  pub next : ℕ

abbrev pub new_client : Client
new_client = record { send = []; done = false; reason = Status.unset }

abbrev pub new_hub : Hub
new_hub = record { clients = []; heap = λ c. new_client; next = 0 }

abbrev pub set_client : ℕ → Client → (ℕ → Client) → ℕ → Client
set_client c o heap d = if c == d then o else heap d

-- `make(chan []byte, 16)`
abbrev pub capacity : ℕ
capacity = 16

-- `closeOnce.Do`
abbrev pub disconnected : Status → Client → Client
disconnected reason o = if o.done then o else record o { done = true; reason = reason }

unfoldable pub disconnect : Status → ℕ → (ℕ → Client) → ℕ → Client
disconnect reason c heap = set_client c (disconnected reason (heap c)) heap

abbrev pub with_set : ℤ → ClientSets → ClientSets
with_set account m = if has_key account m then m else put account [] m

unfoldable pub register : ℤ → Hub → ℕ × Hub
register account h =
    let cl = h.next in
    let m = with_set account h.clients in
    (
      cl,
      record {
        clients = put account (members account m ++ cl ∷ []) m;
        heap = set_client cl new_client h.heap;
        next = suc cl;
      },
    )

-- `delete` from the set of an account; from a missing set it does nothing.
abbrev pub without_client : ℤ → ℕ → ClientSets → ClientSets
without_client account c m =
    if has_key account m then put account (select (λ d. not (d == c)) (members account m)) m else m

abbrev pub without_empty : ℤ → ClientSets → ClientSets
without_empty account m = if length (members account m) == 0 then delete account m else m

unfoldable pub unregister : ℤ → Status → ℕ → Hub → Hub
unfolding disconnect
unregister account reason c h = record h {
  clients = without_empty account (without_client account c h.clients);
  heap = disconnect reason c h.heap;
}

abbrev pub enqueue : Json → ℕ → Hub → Hub
enqueue msg c h =
    let o = h.heap c in
    record h { heap = set_client c (record o { send = o.send ++ msg ∷ [] }) h.heap }

-- The `select` for one client: where both the queue has room and the client is done, Go picks
-- either case, `queues` says which.
unfoldable pub deliver : ℤ → Json → Bool → ℕ → Hub → Hub
unfolding unregister
deliver account msg queues c h =
    let o = h.heap c in
    if ltb (length o.send) capacity
    then (if o.done then (if queues then enqueue msg c h else h) else enqueue msg c h)
    else if o.done
    then h
    else unregister account Status.policy_violation c h

-- The loop of `Send` over its copy.
unfoldable pub deliver_all : ℤ → Json → (ℕ → Bool) → List ℕ → Hub → Hub
unfolding deliver
deliver_all account msg queues [] h = h
deliver_all account msg queues (c ∷ cs) h =
    deliver_all account msg queues cs (deliver account msg (queues c) c h)

unfoldable pub send : ℤ → Json → (ℕ → Bool) → Hub → Hub
unfolding deliver_all
send account msg queues h = deliver_all account msg queues (members account h.clients) h

unfoldable pub disconnect_all : List ℕ → (ℕ → Client) → ℕ → Client
unfolding disconnect
disconnect_all [] heap = heap
disconnect_all (c ∷ cs) heap = disconnect_all cs (disconnect Status.going_away c heap)

unfoldable pub close_all : Hub → Hub
unfolding disconnect_all
close_all h = record h { heap = disconnect_all (entries h.clients) h.heap }

-- `<-cl.send`: the oldest message, where there is one.
abbrev pub rest_of : List Json → List Json
rest_of [] = []
rest_of (m ∷ ms) = ms

unfoldable pub receive : ℕ → Hub → Hub
receive c h =
    let o = h.heap c in record h { heap = set_client c (record o { send = rest_of o.send }) h.heap }

-- The sum of the sizes of the sets.
unfoldable pub count : ClientSets → ℕ
count [] = 0
count ((a, s) ∷ m) = length s + count m

unfoldable pub connections : Hub → ℕ
unfolding count
connections h = count h.clients

-- What happens to a hub, one step at a time; a step of `Send` is for one client of its copy.
pub data Step : Type 0 where
  registers : ℤ → Step
  unregisters : ℤ → Status → ℕ → Step
  delivers : ℤ → Json → Bool → ℕ → Step
  receives : ℕ → Step
  closes_all : Step

unfoldable pub step : Step → Hub → Hub
unfolding deliver receive
step (registers account) h = (register account h).1
step (unregisters account reason c) h = unregister account reason c h
step (delivers account msg queues c) h = deliver account msg queues c h
step (receives c) h = receive c h
step closes_all h = close_all h

unfoldable pub steps : List Step → Hub → Hub
unfolding step
steps [] h = h
steps (e ∷ es) h = steps es (step e h)
