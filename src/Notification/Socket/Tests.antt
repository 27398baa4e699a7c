-- ===== src/Notification/Socket/Tests.antt =====
-- A request that is served: a message comes and is written, the hub shuts down, the connection is
-- closed.
use equilibra.Common.{
  ◌≡◌, refl, String, true, Option, none, some, List, [], ◌∷◌, ◌++◌, str_eq, if◌then◌else◌,
}
use equilibra.Common.Int.{ℤ, pos, ◌==ℤ◌}
use equilibra.Events.Document.{Json}
use equilibra.Notification.Hub.{
  Status, Step, new_hub, register, deliver, receive, close_all, disconnect_all, step, steps,
  disconnect, unregister,
}
use equilibra.Notification.Hub.Table.{members, has_key, put, entries}
use equilibra.Notification.Hub.Invariant.{steps-new_hub-IsHub}
use equilibra.Notification.Socket.{
  Signal, takes_message, ticks, takes_done, ends, meanwhile, Connection, loop, connect, turn,
  serve_http,
}
use equilibra.Notification.Socket.Requests.{IsServed, serve_http-IsServed}
use equilibra.Notification.Socket.Moves.{in_hand, queued}
use equilibra.Notification.Socket.Order.{loop-connect-in_order}

abbrev two_hellos : List Signal
two_hellos =
    meanwhile (Step.delivers (pos 7) (Json.text "one") true 0)
    ∷ meanwhile (Step.delivers (pos 7) (Json.text "two") true 0)
    ∷ ticks
    ∷ ends true
    ∷ takes_message
    ∷ ends true
    ∷ takes_message
    ∷ []

abbrev until_shutdown : List Signal
until_shutdown = two_hellos ++ ends true ∷ meanwhile Step.closes_all ∷ takes_done ∷ ends true ∷ []

abbrev parse_account : String → Option ℤ
parse_account text = if str_eq text "7" then some (pos 7) else none

abbrev one_client : List Step
one_client = Step.registers (pos 8) ∷ []

serve_http-IsServed_example :
    IsServed true
      (some (pos 7))
      (steps one_client new_hub)
      (serve_http parse_account true "7" until_shutdown (steps one_client new_hub))
serve_http-IsServed_example =
    serve_http-IsServed parse_account true "7" until_shutdown (steps one_client new_hub)
      (steps-new_hub-IsHub one_client)

abbrev served_connection : Connection
served_connection = loop (pos 7) two_hellos (connect (pos 7) new_hub)

loop-connect-in_order_example :
    served_connection.written
      ++ (in_hand served_connection.place
          ++ (served_connection.hub.heap served_connection.client).send)
    ≡ queued (pos 7) two_hellos (connect (pos 7) new_hub)
loop-connect-in_order_example =
    loop-connect-in_order (pos 7) two_hellos new_hub (tt, (tt, (tt, (tt, (tt, (tt, (tt, tt)))))))

-- The first message is written, the second is being written.
written_test :
    (served_connection.written ≡ Json.text "one" ∷ [])
    × (in_hand served_connection.place ≡ Json.text "two" ∷ [])
unfolding loop turn connect register members has_key put ◌==ℤ◌ step deliver receive
written_test = (refl, refl)

closed_test :
    (loop (pos 7) until_shutdown (connect (pos 7) new_hub)).closed_with ≡ some Status.going_away
unfolding loop turn connect register members has_key put ◌==ℤ◌ step deliver receive close_all
    disconnect_all disconnect entries unregister
closed_test = refl
