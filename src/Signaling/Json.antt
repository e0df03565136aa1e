-- ===== src/Signaling/Json.antt =====
-- What the signaling worker takes from outside the repository: JsonCpp, and what its build makes of a
-- function that ends without its `return`.
use dcj_rtc.Prelude.{ℕ, ℤ, Bytes, Option, List, Outcome, ok, ◌≡◌}

-- A field of the reply's object.
pub data Field : Type 0 where
  number : ℤ → Field
  text : Bytes → Field

-- `none` is a failed parse, or a thrown `Json::Exception` where the member is missing in a value
-- that is no object or does not convert.
pub record JsonCpp (V : Type 0) : Type 0 where
  pub parse : Bytes → Option V
  pub as_int : V → (key : Bytes) → Option ℤ
  pub as_uint64 : V → (key : Bytes) → Option ℕ
  pub as_string : V → (key : Bytes) → Option Bytes
  -- `writeString` of an object with these members, without indentation.
  pub write_string : List (Bytes × Field) → Bytes
  -- Where an `int` function ends without a value: undefined behaviour by the language, and some number
  -- in a build that goes on.
  pub unreturned : Outcome ℤ

-- A build in which such a function returns, with whatever number.
abbrev pub ReturnsAnyway : {V : Type 0} → JsonCpp V → Type 0
ReturnsAnyway json = (n : ℤ) × (json.unreturned ≡ ok n)
