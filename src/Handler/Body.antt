-- ===== src/Handler/Body.antt =====
-- `readJSON` of internal/handler/helpers.go: what the JSON decoder reports, and the message made
-- of it. The decoder is encoding/json; its report on a body is a value here.
use equilibra.Common.{String, Bool, true, false, str_eq, if◌then◌else◌}
use equilibra.Common.Int.{ℤ}
use equilibra.Handler.Responses.{Message, plain, around}
use Prim.Native.String.{◌++◌ as ◌+++◌}

-- The errors of `Decode` that the switch tells apart. The destination is never nil, so
-- `InvalidUnmarshalError` does not occur.
pub data DecodeError : Type 0 where
  syntax : ℤ → DecodeError
  unexpected_eof : DecodeError
  unmarshal_type : String → ℤ → DecodeError
  eof : DecodeError
  unknown_field : String → DecodeError
  max_bytes : ℤ → DecodeError
  other : String → DecodeError

-- The first `Decode`; where it succeeds, whether the second one meets the end of the body.
pub data Decoded (A : Type 0) : Type 0 where
  failed : DecodeError → Decoded A
  decoded : A → Bool → Decoded A

-- The body's value, or the message of the error.
pub data Read (A : Type 0) : Type 0 where
  malformed : Message → Read A
  value : A → Read A

-- The name of a field of the request types needs no escape between quotes.
unfoldable pub decode_message : DecodeError → Message
decode_message (syntax offset) = around "body contains badly-formed JSON (at character " offset ")"
decode_message unexpected_eof = plain "body contains badly-formed JSON"
decode_message (unmarshal_type field offset) =
    if str_eq field ""
    then around "body contains incorrect JSON type (at character " offset ")"
    else plain (◌+++◌ "body contains incorrect JSON type for field \"" (◌+++◌ field "\""))
decode_message eof = plain "body must not be empty"
-- The rest of the decoder's message has the name with its quotes.
decode_message (unknown_field name) = plain (◌+++◌ "body contains unknown key: " name)
decode_message (max_bytes limit) = around "body must not be larger than " limit " bytes"
decode_message (other text) = plain text

unfoldable pub read_json : {A : Type 0} → Decoded A → Read A
unfolding decode_message
read_json (failed e) = malformed (decode_message e)
read_json (decoded a true) = value a
read_json (decoded a false) = malformed (plain "body must only contain a single JSON value")
