-- ===== src/Notification/Socket.antt =====
-- `WSHandler.ServeHTTP` of internal/notification/ws.go over the hub. What its `select` finds, how
-- the writes and pings end, and what others do to the hub meanwhile is a list of signals. The
-- parser of integers and the answer of `websocket.Accept` are parameters.
mod Turns
mod Moves
pub mod Registration
pub mod Requests
pub mod Order
mod Tests
use equilibra.Common.{
  ℕ, String, Bool, true, false, ◌||◌, Option, none, some, List, [], ◌∷◌, ◌++◌, if◌then◌else◌,
}
use equilibra.Common.Int.{ℤ, pos, leb_ℤ}
use equilibra.Events.Document.{Json}
use equilibra.Notification.Hub.{Hub, Status, Step, register, unregister, receive, step}

-- Where the handler stands. It has returned with the message that it could not write, if any.
pub data Place : Type 0 where
  selecting : Place
  writing : Json → Place
  pinging : Place
  closing : Place
  returned : List Json → Place

-- A case of the `select` is taken, a write, a ping or a close ends (without an error or with one),
-- or a step of others reaches the hub.
pub data Signal : Type 0 where
  takes_message ticks takes_done cancelled : Signal
  ends : Bool → Signal
  meanwhile : Step → Signal

pub record Connection : Type 0 where
  pub hub : Hub
  pub client : ℕ
  pub place : Place
  pub written : List Json
  pub closed_with : Option Status

module _ (account_id : ℤ) where
  -- `return`, which runs the deferred `Unregister`.
  abbrev pub leave : List Json → Connection → Connection
  leave unwritten k = record k {
    hub = unregister account_id Status.normal_closure k.client k.hub;
    place = returned unwritten;
  }

  -- A case of the `select` that is not ready is not taken.
  abbrev pub take_message : List Json → Connection → Connection
  take_message [] k = k
  take_message (m ∷ ms) k = record k { hub = receive k.client k.hub; place = writing m }

  abbrev pub take_done : Connection → Connection
  take_done k =
      let o = k.hub.heap k.client in
      if o.done then record k { place = closing; closed_with = some o.reason } else k

  abbrev pub select_case : Signal → Connection → Connection
  select_case takes_message k = take_message (k.hub.heap k.client).send k
  select_case ticks k = record k { place = pinging }
  select_case takes_done k = take_done k
  select_case cancelled k = leave [] k
  select_case s k = k

  abbrev pub write_ends : Json → Bool → Connection → Connection
  write_ends m true k = record k { place = selecting; written = k.written ++ m ∷ [] }
  write_ends m false k = leave (m ∷ []) k

  abbrev pub ping_ends : Bool → Connection → Connection
  ping_ends true k = record k { place = selecting }
  ping_ends false k = leave [] k

  abbrev pub turn_at : Place → Signal → Connection → Connection
  turn_at selecting s k = select_case s k
  turn_at (writing m) (ends succeeds) k = write_ends m succeeds k
  turn_at pinging (ends succeeds) k = ping_ends succeeds k
  turn_at closing (ends succeeds) k = leave [] k
  turn_at p s k = k

  unfoldable pub turn : Signal → Connection → Connection
  turn (meanwhile e) k = record k { hub = step e k.hub }
  turn s k = turn_at k.place s k

  unfoldable pub loop : List Signal → Connection → Connection
  unfolding turn
  loop [] k = k
  loop (s ∷ signals) k = loop signals (turn s k)

  -- From `Register` on.
  unfoldable pub connect : Hub → Connection
  connect h =
      let (cl, h') = register account_id h in
      record { hub = h'; client = cl; place = selecting; written = []; closed_with = none }

-- What a request comes to.
pub data Served : Type 0 where
  bad_request : Hub → Served
  not_accepted : Hub → Served
  served : Connection → Served

abbrev pub serve_account : Bool → List Signal → Hub → ℤ → Served
serve_account accepts signals h account_id =
    let k = loop account_id signals (connect account_id h) in
    if accepts then served k else not_accepted h

abbrev pub serve_parsed : Bool → List Signal → Hub → Option ℤ → Served
serve_parsed accepts signals h none = bad_request h
serve_parsed accepts signals h (some account_id) =
    let served_now = serve_account accepts signals h account_id in
    if leb_ℤ account_id (pos 0) then bad_request h else served_now

unfoldable pub serve_http : (String → Option ℤ) → Bool → String → List Signal → Hub → Served
unfolding loop connect
serve_http parse_int accepts account_text signals h =
    serve_parsed accepts signals h (parse_int account_text)
