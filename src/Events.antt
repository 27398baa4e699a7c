-- ===== src/Events.antt =====
-- internal/events/events.go: the payload of an outbox event and its partition key.
pub mod Document
use equilibra.Common.{
  ℕ, zero, suc, ◌+◌, ◌/◌, ◌%◌, String, Option, none, some, List, [], ◌∷◌, ◌++◌, ltb, if◌then◌else◌,
}
use equilibra.Common.Int.{ℤ, pos, negsuc}
use equilibra.Storage.Schema.{TxType}
use Document.{Json, Fields, num, text, time, obj, end, field}

pub record EntryPosted : Type 0 where
  pub account_id : ℤ
  pub transaction_id : ℤ
  pub transaction_type : TxType
  pub amount : ℤ
  pub currency : String
  pub counterparty_id : ℤ
  pub reversal_of : Option ℤ
  pub occurred_at : ℕ

-- The decimal digits of a number, as bytes; `suc n` rounds are enough for `n`.
unfoldable pub digits : ℕ → ℕ → List ℕ
digits zero n = []
digits (suc f) n =
    let rest = digits f (n / 10) ++ (b'0' + n % 10) ∷ [] in
    if ltb n 10 then (b'0' + n) ∷ [] else rest

-- `strconv.FormatInt(i, 10)`.
unfoldable pub format_int : ℤ → List ℕ
unfolding digits
format_int (pos n) = digits (suc n) n
format_int (negsuc n) = b'-' ∷ digits (suc (suc n)) (suc n)

-- The method `Key`: the Kafka partition key.
unfoldable pub key : EntryPosted → List ℕ
unfolding format_int
key e = format_int e.account_id

abbrev type_name : TxType → String
type_name TxType.withdrawal = "withdrawal"
type_name TxType.deposit = "deposit"
type_name TxType.transfer = "transfer"
type_name TxType.reversal = "reversal"

-- `omitempty` leaves a nil pointer out.
abbrev reversal_field : Option ℤ → Fields → Fields
reversal_field none rest = rest
reversal_field (some id) rest = field "reversal_of" (num id) rest

-- The members of the struct's object, by its tags.
abbrev pub entry_fields : EntryPosted → Fields
entry_fields e = field "account_id" (num e.account_id) (
    field "transaction_id" (num e.transaction_id) (
      field "transaction_type" (text (type_name e.transaction_type)) (
        field "amount" (num e.amount) (
          field "currency" (text e.currency) (
            field "counterparty_id" (num e.counterparty_id)
              (reversal_field e.reversal_of (field "occurred_at" (time e.occurred_at) end)))))))

-- `json.Marshal` of the struct.
unfoldable pub marshal : EntryPosted → Json
marshal e = obj (entry_fields e)
