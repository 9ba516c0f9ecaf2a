-- ===== src/Protocol/Revert.antt =====
-- pkg/protocol/revert.go. The data of an RPC error is a graph of values, which may be cyclic: a map
-- holds references, and `heap` says what each one points to.
pub mod Budget
use takapu_protocol_sdk.Prelude.{
  same_bytes, ℕ, zero, suc, ◌-◌, List, [], ◌∷◌, Bool, true, false, not, ◌&&◌, ◌||◌, ltb, leb, ◌==◌,
  if◌then◌else◌, Option, none, some, length, take, drop,
}
use takapu_protocol_sdk.Decimal.Digits.{Text}
use takapu_protocol_sdk.Protocol.Errors.{
  Value, text, RevertError, Failure, reverted, with_data, plain,
}

-- A value of type `any`: a string, bytes, a map with its entries at "data", "return" and "result",
-- or anything else.
pub data ErrorData : Type 0 where
  hex : Text → ErrorData
  raw : List ℕ → ErrorData
  table : Option ℕ → Option ℕ → Option ℕ → ErrorData
  other : ErrorData

-- What is used of go-ethereum: hexutil.Decode, the errors of the contract's ABI by their selector,
-- the unpacking of their arguments, and UnpackRevert for Error and Panic.
pub record RevertCodec : Type 0 where
  pub decode_hex : Text → Option (List ℕ)
  pub error_by_id : List ℕ → Option Text
  pub unpack_error : Text → List ℕ → Option (List Value)
  pub unpack_revert : List ℕ → Option Text

-- The bytes found, if any, and what is left of the budget.
abbrev pub Found : Type 0
Found = Option (List ℕ) × ℕ

-- `raw, len(raw) >= 4`
abbrev pub long_enough : List ℕ → Option (List ℕ)
long_enough bytes = if ltb (length bytes) 4 then none else some bytes

abbrev pub decoded : Option (List ℕ) → Option (List ℕ)
decoded none = none
decoded (some bytes) = long_enough bytes

-- One turn of the loop over the keys: the search goes on in an entry if nothing was found so far.
abbrev pub try_entry : (ℕ → ℕ → Found) → Option ℕ → Found → Found
try_entry search none found = found
try_entry search (some ref) (some bytes, left) = (some bytes, left)
try_entry search (some ref) (none, left) = search ref left

abbrev pub try_entries : (ℕ → ℕ → Found) → Option ℕ → Option ℕ → Option ℕ → ℕ → Found
try_entries search a b c left =
    try_entry search c (try_entry search b (try_entry search a (none, left)))

-- The switch of `nestedRevertBytes` on a value, with the budget already reduced.
abbrev pub search_value : RevertCodec → (ℕ → ℕ → Found) → ErrorData → ℕ → Found
search_value codec search (hex t) left = (decoded (codec.decode_hex t), left)
search_value codec search (raw bytes) left = (long_enough bytes, left)
search_value codec search (table a b c) left = try_entries search a b c left
search_value codec search other left = (none, left)

-- `nestedRevertBytes` on a reference, with `fuel` for the depth of its recursion.
unfoldable pub nested_revert_bytes : RevertCodec → (ℕ → ErrorData) → ℕ → ℕ → ℕ → Found
nested_revert_bytes codec heap zero ref remaining = (none, remaining)
nested_revert_bytes codec heap (suc fuel) ref zero = (none, zero)
nested_revert_bytes codec heap (suc fuel) ref (suc left) =
    search_value codec (nested_revert_bytes codec heap fuel) (heap ref) left

-- `revertBytes`. The budget of 32 bounds the depth too.
unfoldable pub revert_bytes : RevertCodec → (ℕ → ErrorData) → ℕ → Option (List ℕ)
revert_bytes codec heap ref = (nested_revert_bytes codec heap 32 ref 32).0

abbrev pub unknown : Text
unknown = b'U' ∷ b'n' ∷ b'k' ∷ b'n' ∷ b'o' ∷ b'w' ∷ b'n' ∷ []

abbrev pub error_name : Text
error_name = b'E' ∷ b'r' ∷ b'r' ∷ b'o' ∷ b'r' ∷ []

abbrev pub panic_name : Text
panic_name = b'P' ∷ b'a' ∷ b'n' ∷ b'i' ∷ b'c' ∷ []

-- The name of the standard errors by their selector.
unfoldable pub standard_error : List ℕ → Option Text
standard_error id =
    if same_bytes id (0x08 ∷ 0xc3 ∷ 0x79 ∷ 0xa0 ∷ [])
    then some error_name
    else if same_bytes id (0x4e ∷ 0x48 ∷ 0x7b ∷ 0x71 ∷ [])
    then some panic_name
    else none

abbrev pub revert_of : Text → List Value → List ℕ → ℕ → Failure
revert_of name arguments bytes cause =
    reverted (record { name = name; arguments = arguments; raw = bytes; cause = cause })

-- The arguments decoded, or the original error.
abbrev pub explained : Failure → Text → ℕ → List ℕ → Option (List Value) → Failure
explained err name cause bytes none = err
explained err name cause bytes (some values) = revert_of name values bytes cause

abbrev pub reason_of : Option Text → Option (List Value)
reason_of none = none
reason_of (some reason) = some (text reason ∷ [])

-- The standard errors, whose reason UnpackRevert reads; any other selector is Unknown.
unfoldable pub parse_standard : RevertCodec → Failure → ℕ → List ℕ → Option Text → Failure
parse_standard codec err cause bytes none = revert_of unknown [] bytes cause
parse_standard codec err cause bytes (some name) =
    explained err name cause bytes (reason_of (codec.unpack_revert bytes))

-- An error of the contract's ABI, or a standard one.
unfoldable pub parse_known : RevertCodec → Failure → ℕ → List ℕ → Option Text → Failure
parse_known codec err cause bytes none =
    parse_standard codec err cause bytes (standard_error (take 4 bytes))
parse_known codec err cause bytes (some name) =
    explained err name cause bytes (codec.unpack_error name (drop 4 bytes))

unfoldable pub parse_bytes : RevertCodec → Failure → ℕ → Option (List ℕ) → Failure
parse_bytes codec err cause none = err
parse_bytes codec err cause (some bytes) =
    if ltb (length bytes) 4
    then err
    else parse_known codec err cause bytes (codec.error_by_id (take 4 bytes))

-- `ParseRevert` on an error that is not nil.
unfoldable pub parse_revert : RevertCodec → (ℕ → ErrorData) → Failure → Failure
parse_revert codec heap (reverted e) = reverted e
parse_revert codec heap (plain e) = plain e
parse_revert codec heap (with_data cause ref) =
    parse_bytes codec (with_data cause ref) cause (revert_bytes codec heap ref)
