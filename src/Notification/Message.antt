-- ===== src/Notification/Message.antt =====
-- What is published for an event: the struct `notification` of internal/notification/processor.go
-- in the struct `envelope` of internal/notification/pubsub.go, as JSON documents.
use equilibra.Common.{String}
use equilibra.Common.Int.{ℤ}
use equilibra.Events.{EntryPosted, entry_fields}
use equilibra.Events.Document.{Json, num, text, obj, end, field}

-- The embedded struct's members stand behind the event's id.
unfoldable pub notification : String → EntryPosted → Json
notification event_id e = obj (field "event_id" (text event_id) (entry_fields e))

unfoldable pub envelope : ℤ → Json → Json
envelope account_id message =
    obj (field "account_id" (num account_id) (field "message" message end))

abbrev pub notifications_channel : String
notifications_channel = "notifications"
