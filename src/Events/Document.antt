-- ===== src/Events/Document.antt =====
-- JSON documents as values: what a JSONB column holds. A time is a JSON string in RFC 3339 form,
-- kept as the instant that it denotes.
use equilibra.Common.{ℕ, String, Option, none, some, str_eq, if◌then◌else◌}
use equilibra.Common.Int.{ℤ}

mutual
  pub data Json : Type 0 where
    null : Json
    num : ℤ → Json
    text : String → Json
    time : ℕ → Json
    obj : Fields → Json

  pub data Fields : Type 0 where
    end : Fields
    field : String → Json → Fields → Fields

-- The member of an object under a key.
unfoldable pub member : String → Fields → Option Json
member k end = none
member k (field j v rest) = if str_eq j k then some v else member k rest
