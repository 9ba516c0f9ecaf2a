-- ===== src/Protocol/Validation/Laws.antt =====
-- The price updates that pkg/protocol accepts.
use takapu_protocol_sdk.Prelude.{
  ℕ, ◌+◌, ◌-◌, ◌<◌, ◌≡◌, ◌⊎◌, inl, inr, arith, ◌↔◌, true, List, length, set, take, drop, ok,
  Result-cases,
}
use takapu_protocol_sdk.Frame.Words.{byte_at}
use takapu_protocol_sdk.Frame.Codec.{validate_compact_frame}
use takapu_protocol_sdk.Frame.Signing.{
  Crypto, SignedFrame, set_bytes, recovery_bit, normalize_with, normalize_signature,
}
use takapu_protocol_sdk.Protocol.Validation.{validate_signed}

-- An update that the contract can check: a maker, a valid frame, and a low-s signature of 65 bytes
-- whose last one is 27 or 28.
pub record IsUpdate (crypto : Crypto) (value : SignedFrame) : Type 0 where
  pub maker : 0 < value.maker
  pub valid : validate_compact_frame value.frame ≡ ok tt
  pub bytes : length value.signature ≡ 65
  pub recovery : byte_at value.signature 64 ≡ 27 ⊎ byte_at value.signature 64 ≡ 28
  pub low_s :
      crypto.are_signature_values
        (byte_at value.signature 64 - 27)
        (set_bytes 0 (take 32 value.signature))
        (set_bytes 0 (take 32 (drop 32 value.signature)))
      ≡ true

-- NormalizeSignature on a signature that ends in 27 or 28.
normalize_signature-wire :
    (crypto : Crypto) (sig : List ℕ)
    → length sig ≡ 65
    → byte_at sig 64 ≡ 27 ⊎ byte_at sig 64 ≡ 28
    → crypto.are_signature_values
        (byte_at sig 64 - 27)
        (set_bytes 0 (take 32 sig))
        (set_bytes 0 (take 32 (drop 32 sig)))
      ≡ true
    → (out : List ℕ) × (normalize_signature crypto sig ≡ ok out)
unfolding normalize_signature normalize_with recovery_bit
normalize_signature-wire crypto sig len v valid =
    (set sig 64 (byte_at sig 64 - 27 + 27), ground arith)

pub normalize_signature-wire_parts :
    (crypto : Crypto) (sig out : List ℕ)
    → byte_at sig 64 ≡ 27 ⊎ byte_at sig 64 ≡ 28
    → normalize_signature crypto sig ≡ ok out
    → (length sig ≡ 65)
      × (crypto.are_signature_values
            (byte_at sig 64 - 27)
            (set_bytes 0 (take 32 sig))
            (set_bytes 0 (take 32 (drop 32 sig)))
          ≡ true)
unfolding normalize_signature normalize_with recovery_bit
normalize_signature-wire_parts crypto sig out v h = ground arith

accepted :
    (crypto : Crypto) (value : SignedFrame)
    → validate_signed crypto value ≡ ok tt
    → IsUpdate crypto value
unfolding validate_signed
accepted crypto value h = elim (Result-cases (validate_compact_frame value.frame)) [
  | inr (e, q) ↦ absurd (ground arith)
  | inl (u, q) ↦ elim (Result-cases (normalize_signature crypto value.signature)) [
    | inr (e, q2) ↦ absurd (ground arith)
    | inl (out, q2) ↦
        let ends : byte_at value.signature 64 ≡ 27 ⊎ byte_at value.signature 64 ≡ 28 =
          ground arith in
        let (len, low) = normalize_signature-wire_parts crypto value.signature out ends q2 in
        record {
          maker = ground arith;
          valid = ground arith;
          bytes = len;
          recovery = ends;
          low_s = low;
        }
  ]
]

accepts :
    (crypto : Crypto) (value : SignedFrame)
    → IsUpdate crypto value
    → validate_signed crypto value ≡ ok tt
unfolding validate_signed
accepts crypto value h =
    let (out, e) = normalize_signature-wire crypto value.signature h.bytes h.recovery h.low_s in
    ground arith

-- validateSigned accepts exactly the updates that the contract can check.
pub validate_signed_iff :
    (crypto : Crypto) (value : SignedFrame)
    → (validate_signed crypto value ≡ ok tt) ↔ IsUpdate crypto value
validate_signed_iff crypto value = (accepted crypto value, accepts crypto value)
