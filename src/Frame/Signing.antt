-- ===== src/Frame/Signing.antt =====
-- pkg/frame/signing.go: the EIP-712 digest of a frame, and signatures over it.
pub mod Laws
use takapu_protocol_sdk.Prelude.{
  ℕ, zero, suc, ◌+◌, ◌*◌, ◌-◌, ◌/◌, ◌%◌, List, [], ◌∷◌, ◌++◌, Bool, true, false, not, ◌||◌, ◌&&◌,
  ◌==◌, if◌then◌else◌, length, take, drop, set, Option, none, some, Result, ok, err, fail_if, wrap,
  ◌>>=◌, ◌>>◌,
}
use takapu_protocol_sdk.Decimal.Digits.{Text}
use takapu_protocol_sdk.Frame.Words.{Word, byte_at}
use takapu_protocol_sdk.Frame.Types.{Address, CompactFrame}
use takapu_protocol_sdk.Frame.Errors.{
  FrameError, chain_id_zero, protocol_zero, maker_zero, signature_length, recovery_id,
  signature_values, expected_signer_zero, recover_signer, signer_mismatch, context_nil,
  context_done, signer_nil, signer_address_zero, sign_digest,
}
use takapu_protocol_sdk.Frame.Codec.{validate_compact_frame}

-- What is used of go-ethereum's `crypto` package: Keccak256 of the joined parts,
-- ValidateSignatureValues for low-s signatures, and SigToPub with PubkeyToAddress.
pub record Crypto : Type 0 where
  pub keccak : List (List ℕ) → Word
  pub are_signature_values : ℕ → ℕ → ℕ → Bool
  pub recover : Word → List ℕ → Option Address

-- `(*big.Int).SetBytes`
unfoldable pub set_bytes : ℕ → List ℕ → ℕ
set_bytes acc [] = acc
set_bytes acc (b ∷ bs) = set_bytes (acc * 256 + b) bs

-- `n` in `width` bytes, big end first, as `LeftPadBytes` pads it.
unfoldable pub big_endian : ℕ → ℕ → List ℕ
big_endian zero n = []
big_endian (suc width) n = big_endian width (n / 256) ++ n % 256 ∷ []

abbrev pub domain_type : Text
domain_type =
    b'E' ∷ b'I' ∷ b'P' ∷ b'7' ∷ b'1' ∷ b'2' ∷ b'D' ∷ b'o' ∷ b'm' ∷ b'a' ∷ b'i' ∷ b'n' ∷ b'(' ∷ b's'
    ∷ b't' ∷ b'r' ∷ b'i' ∷ b'n' ∷ b'g' ∷ b' ' ∷ b'n' ∷ b'a' ∷ b'm' ∷ b'e' ∷ b',' ∷ b's' ∷ b't'
    ∷ b'r' ∷ b'i' ∷ b'n' ∷ b'g' ∷ b' ' ∷ b'v' ∷ b'e' ∷ b'r' ∷ b's' ∷ b'i' ∷ b'o' ∷ b'n' ∷ b','
    ∷ b'u' ∷ b'i' ∷ b'n' ∷ b't' ∷ b'2' ∷ b'5' ∷ b'6' ∷ b' ' ∷ b'c' ∷ b'h' ∷ b'a' ∷ b'i' ∷ b'n'
    ∷ b'I' ∷ b'd' ∷ b',' ∷ b'a' ∷ b'd' ∷ b'd' ∷ b'r' ∷ b'e' ∷ b's' ∷ b's' ∷ b' ' ∷ b'v' ∷ b'e'
    ∷ b'r' ∷ b'i' ∷ b'f' ∷ b'y' ∷ b'i' ∷ b'n' ∷ b'g' ∷ b'C' ∷ b'o' ∷ b'n' ∷ b't' ∷ b'r' ∷ b'a'
    ∷ b'c' ∷ b't' ∷ b')' ∷ []

abbrev pub frame_type : Text
frame_type =
    b'U' ∷ b'p' ∷ b'd' ∷ b'a' ∷ b't' ∷ b'e' ∷ b'F' ∷ b'r' ∷ b'a' ∷ b'm' ∷ b'e' ∷ b'(' ∷ b'b' ∷ b'y'
    ∷ b't' ∷ b'e' ∷ b's' ∷ b'3' ∷ b'2' ∷ b' ' ∷ b'h' ∷ b'e' ∷ b'a' ∷ b'd' ∷ b'e' ∷ b'r' ∷ b','
    ∷ b'b' ∷ b'y' ∷ b't' ∷ b'e' ∷ b's' ∷ b'3' ∷ b'2' ∷ b' ' ∷ b'b' ∷ b'i' ∷ b'd' ∷ b'L' ∷ b'e'
    ∷ b'v' ∷ b'e' ∷ b'l' ∷ b's' ∷ b',' ∷ b'b' ∷ b'y' ∷ b't' ∷ b'e' ∷ b's' ∷ b'3' ∷ b'2' ∷ b' '
    ∷ b'a' ∷ b's' ∷ b'k' ∷ b'L' ∷ b'e' ∷ b'v' ∷ b'e' ∷ b'l' ∷ b's' ∷ b',' ∷ b'a' ∷ b'd' ∷ b'd'
    ∷ b'r' ∷ b'e' ∷ b's' ∷ b's' ∷ b' ' ∷ b'm' ∷ b'a' ∷ b'k' ∷ b'e' ∷ b'r' ∷ b')' ∷ []

abbrev pub domain_name : Text
domain_name =
    b'T' ∷ b'a' ∷ b'k' ∷ b'a' ∷ b'p' ∷ b'u' ∷ b' ' ∷ b'P' ∷ b'r' ∷ b'o' ∷ b't' ∷ b'o' ∷ b'c' ∷ b'o'
    ∷ b'l' ∷ []

abbrev pub domain_version : Text
domain_version = b'1' ∷ []

pub record SigningDomain : Type 0 where
  pub chain_id : ℕ
  pub protocol : Address

pub record SignedFrame : Type 0 where
  pub frame : CompactFrame
  pub maker : Address
  pub signature : List ℕ

-- A non-nil `Signer`; `SignDigest` may fail.
pub record Signer : Type 0 where
  pub address : Address
  pub sign : Word → Option (List ℕ)

-- `validateDomain`
unfoldable pub validate_domain : SigningDomain → Result FrameError (Unit {0})
validate_domain d = do
  fail_if (d.chain_id == 0) chain_id_zero
  fail_if (d.protocol == 0) protocol_zero

-- `digest`
unfoldable pub digest : Crypto → SigningDomain → Address → CompactFrame → Word
digest crypto d maker f =
    let hash = λ (t : Text). crypto.keccak (t ∷ []) in
    let separator = crypto.keccak (
      hash domain_type
      ∷ hash domain_name
      ∷ hash domain_version
      ∷ big_endian 32 d.chain_id
      ∷ big_endian 32 d.protocol
      ∷ []) in
    let payload =
      crypto.keccak
        (hash frame_type ∷ f.header ∷ f.bid_levels ∷ f.ask_levels ∷ big_endian 32 maker ∷ []) in
    crypto.keccak ((0x19 ∷ 0x01 ∷ []) ∷ separator ∷ payload ∷ [])

-- `SigningDigest`
unfoldable pub signing_digest :
    Crypto → SigningDomain → Address → CompactFrame → Result FrameError Word
signing_digest crypto domain maker value = do
  validate_domain domain
  fail_if (maker == 0) maker_zero
  validate_compact_frame value
  ok (digest crypto domain maker value)

-- The switch on the last byte: the recovery id 0 or 1.
unfoldable pub recovery_bit : ℕ → Option ℕ
recovery_bit v =
    if v == 27 || v == 28 then some (v - 27) else if v == 0 || v == 1 then some v else none

unfoldable pub normalize_with : Crypto → List ℕ → Option ℕ → Result FrameError (List ℕ)
normalize_with crypto sig none = err recovery_id
normalize_with crypto sig (some v) = do
  fail_if
      (not (
        crypto.are_signature_values v (set_bytes 0 (take 32 sig))
          (set_bytes 0 (take 32 (drop 32 sig)))))
      signature_values
  ok (set sig 64 (v + 27))

-- `NormalizeSignature`
unfoldable pub normalize_signature : Crypto → List ℕ → Result FrameError (List ℕ)
normalize_signature crypto sig = do
  fail_if (not (length sig == 65)) signature_length
  normalize_with crypto sig (recovery_bit (byte_at sig 64))

unfoldable pub check_recovered : Option Address → Address → Result FrameError (Unit {0})
check_recovered none expected = err recover_signer
check_recovered (some a) expected = fail_if (not (a == expected)) signer_mismatch

-- `VerifySignature`
unfoldable pub verify_signature :
    Crypto → SigningDomain → SignedFrame → Address → Result FrameError (Unit {0})
verify_signature crypto domain value expected_signer = do
  fail_if (expected_signer == 0) expected_signer_zero
  d ← signing_digest crypto domain value.maker value.frame
  sig ← normalize_signature crypto value.signature
  check_recovered (crypto.recover d (set sig 64 (byte_at sig 64 - 27))) expected_signer

-- A non-nil context: what `Err` answers before the signer is called and after.
pub record Context : Type 0 where
  pub before : Option ℕ
  pub after : Option ℕ

unfoldable pub check_context : Option ℕ → Result FrameError (Unit {0})
check_context none = ok tt
check_context (some e) = err context_done

abbrev pub signed : Option (List ℕ) → Result FrameError (List ℕ)
signed none = err sign_digest
signed (some sig) = ok sig

-- The body of `SignFrame` for a context and a signer that are not nil.
unfoldable pub sign_with :
    Crypto
    → Context
    → SigningDomain
    → Address
    → CompactFrame
    → Signer
    → Result FrameError SignedFrame
sign_with crypto ctx domain maker value signer = do
  fail_if (signer.address == 0) signer_address_zero
  d ← signing_digest crypto domain maker value
  sig ← signed (signer.sign d)
  check_context ctx.after
  normalized ← normalize_signature crypto sig
  let out : SignedFrame = record { frame = value; maker = maker; signature = normalized }
  verify_signature crypto domain out signer.address
  ok out

-- `SignFrame`
unfoldable pub sign_frame :
    Crypto
    → Option Context
    → SigningDomain
    → Address
    → CompactFrame
    → Option Signer
    → Result FrameError SignedFrame
sign_frame crypto none domain maker value signer = err context_nil
sign_frame crypto (some ctx) domain maker value none = do check_context ctx.before; err signer_nil
sign_frame crypto (some ctx) domain maker value (some signer) = do
  check_context ctx.before
  sign_with crypto ctx domain maker value signer
