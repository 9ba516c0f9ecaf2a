-- ===== src/Frame/Prepare/Signed.antt =====
-- What a quote of pkg/frame/prepare.go carries, and for whom its signature stands.
use takapu_protocol_sdk.Prelude.{◌≡◌, arith, Option, some, ok, inl, inr, Result-cases, true, false}
use takapu_protocol_sdk.Wire.{MarketFrame, FrameWords, AddressText}
use takapu_protocol_sdk.Frame.Types.{FrameSpec, CompactFrame, validate_pair}
use takapu_protocol_sdk.Frame.Codec.{encode_compact_frame}
use takapu_protocol_sdk.Frame.Signing.{
  Crypto, SigningDomain, SignedFrame, Signer, Context, validate_domain, verify_signature,
  sign_frame,
}
use takapu_protocol_sdk.Frame.Signing.Laws.{sign_frame-verifies}
use takapu_protocol_sdk.Frame.Prepare.{
  Payload, PreparedFrame, prepare_signing_payload, human_levels, prepare, wire_of, build_and_sign,
}

abbrev pub domain_of : FrameSpec → SigningDomain
domain_of spec = record { chain_id = spec.chain_id; protocol = spec.protocol }

abbrev pub words_of : CompactFrame → FrameWords
words_of f = record { header = f.header; bid_levels = f.bid_levels; ask_levels = f.ask_levels }

pub payload_parts :
    (crypto : Crypto) (spec : FrameSpec) (p : Payload)
    → prepare_signing_payload crypto spec ≡ ok p
    → (validate_pair spec.pair ≡ ok tt)
      × (encode_compact_frame spec ≡ ok p.frame)
      × (p.domain ≡ domain_of spec)
      × (p.maker ≡ spec.maker)
unfolding prepare_signing_payload
payload_parts crypto spec p h = elim (Result-cases (validate_domain (domain_of spec))) [
  | inr (e, q) ↦ absurd (ground arith)
  | inl (u, q) ↦ elim (Result-cases (validate_pair spec.pair)) [
    | inr (e, q2) ↦ absurd (ground arith)
    | inl (v, q2) ↦ elim (Result-cases (encode_compact_frame spec)) [
      | inr (e, q3) ↦ absurd (ground arith)
      | inl (f, q3) ↦ (ground arith, ground arith, ground arith, ground arith)
    ]
  ]
]

pub prepare_parts :
    (crypto : Crypto) (text : AddressText) (spec : FrameSpec) (p : PreparedFrame)
    → prepare crypto text spec ≡ ok p
    → (prepare_signing_payload crypto spec ≡ ok p.payload)
      × (human_levels spec.base_tick true spec.pair spec.bids ≡ ok p.wire.bids)
      × (human_levels spec.base_tick false spec.pair spec.asks ≡ ok p.wire.asks)
      × (p.wire ≡ wire_of text spec p.payload p.wire.bids p.wire.asks)
unfolding prepare wire_of
prepare_parts crypto text spec p h = elim (Result-cases (prepare_signing_payload crypto spec)) [
  | inr (e, q) ↦ absurd (ground arith)
  | inl (l, q) ↦ elim (Result-cases (human_levels spec.base_tick true spec.pair spec.bids)) [
    | inr (e, q2) ↦ absurd (ground arith)
    | inl (b, q2) ↦ elim (Result-cases (human_levels spec.base_tick false spec.pair spec.asks)) [
      | inr (e, q3) ↦ absurd (ground arith)
      | inl (a, q3) ↦ (ground arith, ground arith, ground arith, ground arith)
    ]
  ]
]

pub build_parts :
    (crypto : Crypto) (text : AddressText) (ctx : Option Context) (spec : FrameSpec)
    (signer : Option Signer) (out : MarketFrame)
    → build_and_sign crypto text ctx spec signer ≡ ok out
    → (p : PreparedFrame) × (s : SignedFrame) × (prepare crypto text spec ≡ ok p)
      × (sign_frame crypto ctx p.payload.domain p.payload.maker p.payload.frame signer ≡ ok s)
      × (out ≡ record p.wire { signature = s.signature })
unfolding build_and_sign
build_parts crypto text ctx spec signer out h = elim (Result-cases (prepare crypto text spec)) [
  | inr (e, q) ↦ absurd (ground arith)
  | inl (p, q) ↦
      elim (Result-cases
        (sign_frame crypto ctx p.payload.domain p.payload.maker p.payload.frame signer)) [
          | inr (e, q2) ↦ absurd (ground arith)
          | inl (s, q2) ↦ (p, s, q, q2, ground arith)
        ]
]

-- A market frame that BuildAndSign returns carries the words of the compact frame that
-- encodeCompactFrame returns for the specification, the readable levels of both sides, and a
-- signature over those words that verifies for the signer's address in the specification's domain
-- and for its maker.
pub build_and_sign-verifies :
    (crypto : Crypto) (text : AddressText) (ctx : Option Context) (spec : FrameSpec)
    (signer : Signer) (out : MarketFrame)
    → build_and_sign crypto text ctx spec (some signer) ≡ ok out
    → (f : CompactFrame) × (encode_compact_frame spec ≡ ok f)
      × (out.frame ≡ some (words_of f))
      × (human_levels spec.base_tick true spec.pair spec.bids ≡ ok out.bids)
      × (human_levels spec.base_tick false spec.pair spec.asks ≡ ok out.asks)
      × (verify_signature crypto
            (domain_of spec)
            (record { frame = f; maker = spec.maker; signature = out.signature })
            signer.address
          ≡ ok tt)
unfolding wire_of
build_and_sign-verifies crypto text ctx spec signer out h =
    let (p, s, prepared, signed, eo) = build_parts crypto text ctx spec (some signer) out h in
    let (paid, eb, ea, ew) = prepare_parts crypto text spec p prepared in
    let (valid, enc, ed, em) = payload_parts crypto spec p.payload paid in
    let (ef, es, nonzero, verified) =
      sign_frame-verifies crypto ctx p.payload.domain p.payload.maker p.payload.frame signer s
        signed in
    (p.payload.frame, enc, ground arith, ground arith, ground arith, ground arith)
