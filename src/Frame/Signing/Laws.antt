-- ===== src/Frame/Signing/Laws.antt =====
-- What the signatures of pkg/frame/signing.go promise.
use takapu_protocol_sdk.Prelude.{
  ◌-◌, ◌==◌, fail_if, >>=-eq-ok, set-get_or_self, ℕ, ◌+◌, ◌≤◌, ◌<◌, ◌≡◌, ◌⊎◌, inl, inr,
  get_or-set_self, arith, List, Option, none, some, ok, length, take, drop, set, Result-cases, true,
  Option-cases, length-set, ◌∙◌,
}
use mathlib.Core.Path.{subst}
use takapu_protocol_sdk.Frame.Words.{byte_at}
use takapu_protocol_sdk.Frame.Types.{Address, CompactFrame}
use takapu_protocol_sdk.Frame.Errors.{expected_signer_zero}
use takapu_protocol_sdk.Frame.Signing.{
  Crypto, SigningDomain, SignedFrame, Signer, Context, set_bytes, recovery_bit, normalize_with,
  normalize_signature, signing_digest, check_recovered, verify_signature, sign_with, sign_frame,
  check_context,
}

recovery_bit-bound : (b v : ℕ) → recovery_bit b ≡ some v → v ≤ 1
unfolding recovery_bit
recovery_bit-bound b v h = ground arith

normalized_parts :
    (crypto : Crypto) (sig out : List ℕ)
    → normalize_signature crypto sig ≡ ok out
    → (v : ℕ) × (length sig ≡ 65)
      × (v ≤ 1)
      × (crypto.are_signature_values v
            (set_bytes 0 (take 32 sig))
            (set_bytes 0 (take 32 (drop 32 sig)))
          ≡ true)
      × (out ≡ set sig 64 (v + 27))
unfolding normalize_signature normalize_with
normalized_parts crypto sig out h = elim (Option-cases (recovery_bit (byte_at sig 64))) [
  | inl e ↦ absurd (ground arith)
  | inr (v, e) ↦
      (v, ground arith, recovery_bit-bound (byte_at sig 64) v e, ground arith, ground arith)
]

sign_with-verifies :
    (crypto : Crypto) (ctx : Context) (domain : SigningDomain) (maker : Address)
    (value : CompactFrame) (signer : Signer) (out : SignedFrame)
    → sign_with crypto ctx domain maker value signer ≡ ok out
    → (out.frame ≡ value)
      × (out.maker ≡ maker)
      × (0 < signer.address)
      × (verify_signature crypto domain out signer.address ≡ ok tt)
unfolding sign_with
sign_with-verifies crypto ctx domain maker value signer out h =
    elim (Result-cases (signing_digest crypto domain maker value)) [
      | inr (e, q) ↦ absurd (ground arith)
      | inl (d, q) ↦ elim (Option-cases (signer.sign d)) [
        | inl q2 ↦ absurd (ground arith)
        | inr (sig, q2) ↦ elim (Result-cases (normalize_signature crypto sig)) [
          | inr (e, q3) ↦ absurd (ground arith)
          | inl (n, q3) ↦ ground arith
        ]
      ]
    ]

-- A signature that SignFrame returns is over the frame and the maker that were given, and verifies
-- for the signer's own address, which is not zero.
pub sign_frame-verifies :
    (crypto : Crypto) (ctx : Option Context) (domain : SigningDomain) (maker : Address)
    (value : CompactFrame) (signer : Signer) (out : SignedFrame)
    → sign_frame crypto ctx domain maker value (some signer) ≡ ok out
    → (out.frame ≡ value)
      × (out.maker ≡ maker)
      × (0 < signer.address)
      × (verify_signature crypto domain out signer.address ≡ ok tt)
unfolding sign_frame
sign_frame-verifies crypto none domain maker value signer out h = cc
sign_frame-verifies crypto (some ctx) domain maker value signer out h =
    elim (Result-cases (check_context ctx.before)) [
      | inl (u, q) ↦ sign_with-verifies crypto ctx domain maker value signer out (ground arith)
      | inr (e, q) ↦ absurd (ground arith)
    ]

-- What NormalizeSignature returns has 65 bytes, ends in 27 or 28, and agrees with what was given in
-- every other byte; the values that it holds were accepted as a low-s signature.
pub normalize_signature-form :
    (crypto : Crypto) (sig out : List ℕ)
    → normalize_signature crypto sig ≡ ok out
    → (v : ℕ) × (v ≤ 1)
      × (length out ≡ 65)
      × (out ≡ set sig 64 (v + 27))
      × (crypto.are_signature_values v
            (set_bytes 0 (take 32 sig))
            (set_bytes 0 (take 32 (drop 32 sig)))
          ≡ true)
normalize_signature-form crypto sig out h =
    let (v, len, small, valid, e) = normalized_parts crypto sig out h in
    (v, small, rw e (length-set sig 64 (v + 27) ∙ len), e, valid)

sign_with-normalized :
    (crypto : Crypto) (ctx : Context) (domain : SigningDomain) (maker : Address)
    (value : CompactFrame) (signer : Signer) (out : SignedFrame)
    → sign_with crypto ctx domain maker value signer ≡ ok out
    → (raw : List ℕ) × (normalize_signature crypto raw ≡ ok out.signature)
unfolding sign_with
sign_with-normalized crypto ctx domain maker value signer out h =
    elim (Result-cases (signing_digest crypto domain maker value)) [
      | inr (e, q) ↦ absurd (ground arith)
      | inl (d, q) ↦ elim (Option-cases (signer.sign d)) [
        | inl q2 ↦ absurd (ground arith)
        | inr (sig, q2) ↦ elim (Result-cases (normalize_signature crypto sig)) [
          | inr (e, q3) ↦ absurd (ground arith)
          | inl (n, q3) ↦ (sig, ground arith)
        ]
      ]
    ]

sign_frame-normalized :
    (crypto : Crypto) (ctx : Option Context) (domain : SigningDomain) (maker : Address)
    (value : CompactFrame) (signer : Signer) (out : SignedFrame)
    → sign_frame crypto ctx domain maker value (some signer) ≡ ok out
    → (raw : List ℕ) × (normalize_signature crypto raw ≡ ok out.signature)
unfolding sign_frame
sign_frame-normalized crypto none domain maker value signer out h = cc
sign_frame-normalized crypto (some ctx) domain maker value signer out h =
    elim (Result-cases (check_context ctx.before)) [
      | inr (e, q) ↦ absurd (ground arith)
      | inl (u, q) ↦ sign_with-normalized crypto ctx domain maker value signer out (ground arith)
    ]

pub verify_signature-normalizes :
    (crypto : Crypto) (domain : SigningDomain) (value : SignedFrame) (signer : Address)
    → verify_signature crypto domain value signer ≡ ok tt
    → (out : List ℕ) × (normalize_signature crypto value.signature ≡ ok out)
unfolding verify_signature
verify_signature-normalizes crypto domain value signer h =
    elim (Result-cases (signing_digest crypto domain value.maker value.frame)) [
      | inr (e, q) ↦ absurd (ground arith)
      | inl (d, q) ↦ elim (Result-cases (normalize_signature crypto value.signature)) [
        | inr (e, q2) ↦ absurd (ground arith)
        | inl (n, q2) ↦ (n, q2)
      ]
    ]

-- The signature of SignFrame has 65 bytes, of which the last is 27 or 28.
pub sign_frame-recovery :
    (crypto : Crypto) (ctx : Option Context) (domain : SigningDomain) (maker : Address)
    (value : CompactFrame) (signer : Signer) (out : SignedFrame)
    → sign_frame crypto ctx domain maker value (some signer) ≡ ok out
    → (byte_at out.signature 64 ≡ 27) ⊎ (byte_at out.signature 64 ≡ 28)
sign_frame-recovery crypto ctx domain maker value signer out h =
    let (raw, e) = sign_frame-normalized crypto ctx domain maker value signer out h in
    let (v, len, bit, low, same) = normalized_parts crypto raw out.signature e in
    let there = get_or-set_self raw 64 (v + 27) 0 (omega (arith, len)) in ground arith

-- A frame with a signature in the form of the wire, which recovers to the signer.
pub record IsSigned (crypto : Crypto) (domain : SigningDomain) (value : SignedFrame)
    (signer : Address) : Type 0 where
  pub bytes : length value.signature ≡ 65
  pub recovery : (byte_at value.signature 64 ≡ 27) ⊎ (byte_at value.signature 64 ≡ 28)
  pub low_s :
      crypto.are_signature_values
        (byte_at value.signature 64 - 27)
        (set_bytes 0 (take 32 value.signature))
        (set_bytes 0 (take 32 (drop 32 value.signature)))
      ≡ true
  pub digest : List ℕ
  pub digested : signing_digest crypto domain value.maker value.frame ≡ ok digest
  pub recovers :
      crypto.recover digest (set value.signature 64 (byte_at value.signature 64 - 27)) ≡ some signer

recovered-eq :
    (found : Option Address) (expected : Address)
    → check_recovered found expected ≡ ok tt
    → found ≡ some expected
unfolding check_recovered
recovered-eq none expected h = cc
recovered-eq (some a) expected h = ground arith

-- The parts of a successful VerifySignature.
verified_parts :
    (crypto : Crypto) (domain : SigningDomain) (value : SignedFrame) (signer : Address)
    → verify_signature crypto domain value signer ≡ ok tt
    → (d : List ℕ) × (sig : List ℕ) × (signing_digest crypto domain value.maker value.frame ≡ ok d)
      × (normalize_signature crypto value.signature ≡ ok sig)
      × (crypto.recover d (set sig 64 (byte_at sig 64 - 27)) ≡ some signer)
unfolding verify_signature
verified_parts crypto domain value signer h =
    let (u, e1, h1) = >>=-eq-ok (fail_if (signer == 0) expected_signer_zero) _ h in
    let (d, e2, h2) = >>=-eq-ok (signing_digest crypto domain value.maker value.frame) _ h1 in
    let (sig, e3, h3) = >>=-eq-ok (normalize_signature crypto value.signature) _ h2 in
    (d, sig, e2, e3, recovered-eq (crypto.recover d (set sig 64 (byte_at sig 64 - 27))) signer h3)

-- A signature in the form of the wire is normal already.
wire-normal :
    (crypto : Crypto) (sig out : List ℕ)
    → (byte_at sig 64 ≡ 27) ⊎ (byte_at sig 64 ≡ 28)
    → normalize_signature crypto sig ≡ ok out
    → (length sig ≡ 65)
      × (crypto.are_signature_values
            (byte_at sig 64 - 27)
            (set_bytes 0 (take 32 sig))
            (set_bytes 0 (take 32 (drop 32 sig)))
          ≡ true)
      × (out ≡ set sig 64 (byte_at sig 64))
unfolding normalize_signature normalize_with recovery_bit
wire-normal crypto sig out (inl v) h = (ground arith, ground arith, ground arith)
wire-normal crypto sig out (inr v) h = (ground arith, ground arith, ground arith)

verified-IsSigned :
    (crypto : Crypto) (domain : SigningDomain) (value : SignedFrame) (signer : Address)
    → (byte_at value.signature 64 ≡ 27) ⊎ (byte_at value.signature 64 ≡ 28)
    → verify_signature crypto domain value signer ≡ ok tt
    → IsSigned crypto domain value signer
verified-IsSigned crypto domain value signer ends h =
    let (d, sig, digested, normal, found) = verified_parts crypto domain value signer h in
    let (len, low, same) = wire-normal crypto value.signature sig ends normal in
    let kept : sig ≡ value.signature = same ∙ set-get_or_self value.signature 64 0 in
    record {
      bytes = len;
      recovery = ends;
      low_s = low;
      digest = d;
      digested = digested;
      recovers =
          subst (λ s. crypto.recover d (set s 64 (byte_at s 64 - 27)) ≡ some signer) kept found;
    }

-- What SignFrame returns is the frame and the maker that were given, with a signature of 65 bytes of
-- which the last is 27 or 28 and whose values are accepted as a low-s signature; and from the digest
-- of that frame and maker in the domain, with the last byte less 27, the address of the signer is
-- recovered, which is not zero.
pub sign_frame-IsSigned :
    (crypto : Crypto) (ctx : Option Context) (domain : SigningDomain) (maker : Address)
    (value : CompactFrame) (signer : Signer) (out : SignedFrame)
    → sign_frame crypto ctx domain maker value (some signer) ≡ ok out
    → (out.frame ≡ value)
      × (out.maker ≡ maker)
      × (0 < signer.address)
      × IsSigned crypto domain out signer.address
sign_frame-IsSigned crypto ctx domain maker value signer out h =
    let (same, here, real, verified) =
      sign_frame-verifies crypto ctx domain maker value signer out h in
    (
      same,
      here,
      real,
      verified-IsSigned crypto domain out signer.address
          (sign_frame-recovery crypto ctx domain maker value signer out h) verified,
    )
