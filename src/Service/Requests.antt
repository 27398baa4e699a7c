-- ===== src/Service/Requests.antt =====
-- The service as its clients see it: requests served one after another, each under conditions of
-- its own. An action of the service that fails leaves what `WithTx` leaves.
pub mod Induction
pub mod Inversion
use equilibra.Common.{◌≡◌, String, Bool, true, false, List, [], ◌∷◌}
use equilibra.Common.Int.{ℤ, IsInt64}
use equilibra.Errors.{Outcome}
use equilibra.Storage.Schema.{TxType}
use equilibra.Storage.WithTx.{World, Conditions}
use equilibra.Service.Types.{Result}
use equilibra.Service.Operations

pub data Request : Type 0 where
  transfer : ℤ → ℤ → ℤ → String → Request
  deposit : ℤ → ℤ → String → String → Request
  withdraw : ℤ → ℤ → String → String → Request
  reverse : ℤ → String → Request

unfoldable pub handle : Conditions → Request → World → Outcome Result × World
handle c (transfer from to amount key) w = Operations.transfer c from to amount key w
handle c (deposit to amount source key) w = Operations.deposit c to amount source key w
handle c (withdraw from amount destination key) w =
    Operations.withdraw c from amount destination key w
handle c (reverse id key) w = Operations.reverse c id key w

unfoldable pub serve : List (Conditions × Request) → World → World
unfolding handle
serve [] w = w
serve ((c, q) ∷ rest) w = serve rest (handle c q w).1

-- The type of the transaction that a request posts.
abbrev pub request_type : Request → TxType
request_type (transfer from to amount key) = TxType.transfer
request_type (deposit to amount source key) = TxType.deposit
request_type (withdraw from amount destination key) = TxType.withdrawal
request_type (reverse id key) = TxType.reversal

-- The amount of a request is an int64, as its Go type says.
abbrev pub IsTyped : Request → Type 0
IsTyped (transfer from to amount key) = IsInt64 amount
IsTyped (deposit to amount source key) = IsInt64 amount
IsTyped (withdraw from amount destination key) = IsInt64 amount
IsTyped (reverse id key) = Unit

abbrev pub AllTyped : List (Conditions × Request) → Type 0
AllTyped [] = Unit
AllTyped ((c, q) ∷ rest) = IsTyped q × AllTyped rest

-- All requests are of the types that a predicate allows.
abbrev pub AllOfType : (TxType → Type 0) → List (Conditions × Request) → Type 0
AllOfType T [] = Unit
AllOfType T ((c, q) ∷ rest) = T (request_type q) × AllOfType T rest

abbrev pub AnyType : TxType → Type 0
AnyType t = Unit

pub AllOfType-AnyType : (qs : List (Conditions × Request)) → AllOfType AnyType qs
AllOfType-AnyType [] = tt
AllOfType-AnyType ((c, q) ∷ rest) = (tt, AllOfType-AnyType rest)
