-- ===== src/Frame/Codec/HeaderWord.antt =====
-- The header word of pkg/frame/codec.go: what encodeCompactFrame writes is what DecodeHeader reads,
-- and DecodeHeader determines the word.
use takapu_protocol_sdk.Prelude.{
  ℕ, ◌+◌, ◌^◌, ◌≤◌, ◌<◌, ◌≡◌, sym, ◌∙◌, ap, arith, All, list_ext, dec_lt,
}
use takapu_protocol_sdk.Frame.Words.{
  Word, IsByte, byte_at, put16, put24, put32, get16, get24, get32,
}
use takapu_protocol_sdk.Frame.Types.{CompactFrame, Header, FrameSpec, max_tick}
use takapu_protocol_sdk.Frame.Codec.{decode_header, encode_header}
use takapu_protocol_sdk.Frame.Codec.Slots.{IsWord, byte_at-IsByte}

-- The header that a quote asks for: the fields that the protocol owns are zero.
abbrev pub header_of : FrameSpec → Header
header_of spec = record {
  updated_at = spec.updated_at;
  major_version = spec.major_version;
  minor_version = spec.minor_version;
  base_tick = spec.base_tick;
  pair_id = spec.pair.pair_id;
  codec_version = spec.codec_version;
  bid_filled_lots = 0;
  ask_filled_lots = 0;
  written_at = 0;
  reserved = 0;
}

-- The ranges that Go's types give the fields: uint32, uint8 and uint16.
pub record InRange (spec : FrameSpec) : Type 0 where
  pub updated_at : spec.updated_at < 2 ^ 32
  pub major_version : spec.major_version < 2 ^ 32
  pub minor_version : spec.minor_version < 2 ^ 8
  pub pair_id : spec.pair.pair_id < 2 ^ 32
  pub codec_version : spec.codec_version < 2 ^ 16

pub decode_header-encode_header :
    (spec : FrameSpec) (b a : Word)
    → InRange spec
    → spec.base_tick ≤ max_tick
    → decode_header (record { header = encode_header spec; bid_levels = b; ask_levels = a })
      ≡ header_of spec
unfolding decode_header encode_header put16 put24 put32 get16 get24 get32
decode_header-encode_header spec b a r hb = λ k. record {
  updated_at = time k;
  major_version = major k;
  minor_version = minor k;
  base_tick = tick k;
  pair_id = id k;
  codec_version = codec k;
  bid_filled_lots = 0;
  ask_filled_lots = 0;
  written_at = 0;
  reserved = 0;
}
  where
    h : Word
    h = encode_header spec

    time : get32 h 28 ≡ spec.updated_at
    time = omega arith

    major : get32 h 24 ≡ spec.major_version
    major = omega arith

    minor : byte_at h 23 ≡ spec.minor_version
    minor = omega arith

    tick : get24 h 20 ≡ spec.base_tick
    tick = omega arith

    id : get32 h 16 ≡ spec.pair.pair_id
    id = omega arith

    codec : get16 h 14 ≡ spec.codec_version
    codec = omega arith

pub encode_header-IsWord : (spec : FrameSpec) → InRange spec → IsWord (encode_header spec)
unfolding encode_header put16 put24 put32
encode_header-IsWord spec r = omega arith

abbrev pub HeaderBounds : Header → Type 0
HeaderBounds h =
    (h.updated_at < 2 ^ 32)
    × (h.major_version < 2 ^ 32)
    × (h.minor_version < 2 ^ 8)
    × (h.pair_id < 2 ^ 32)
    × (h.codec_version < 2 ^ 16)
    × (h.base_tick ≤ max_tick)

-- What DecodeHeader returns lies in the ranges of the fields' types.
pub decode_header_bounds : (f : CompactFrame) → IsWord f.header → HeaderBounds (decode_header f)
unfolding decode_header get16 get24 get32
decode_header_bounds f hw =
    let b = λ (j : ℕ). byte_at-IsByte f.header j hw.1 in
    omega (
      arith,
      b 14,
      b 15,
      b 16,
      b 17,
      b 18,
      b 19,
      b 20,
      b 21,
      b 22,
      b 23,
      b 24,
      b 25,
      b 26,
      b 27,
      b 28,
      b 29,
      b 30,
      b 31,
    )

-- The bytes of a four-byte field are determined by its value.
get32_bytes :
    (u w : Word) (at j : ℕ)
    → All IsByte u
    → All IsByte w
    → get32 u at ≡ get32 w at
    → at ≤ j
    → j < at + 4
    → byte_at u j ≡ byte_at w j
unfolding get32
get32_bytes u w at j hu hw e lo hi = ground (
  arith,
  byte_at-IsByte u at hu,
  byte_at-IsByte u (at + 1) hu,
  byte_at-IsByte u (at + 2) hu,
  byte_at-IsByte u (at + 3) hu,
  byte_at-IsByte w at hw,
  byte_at-IsByte w (at + 1) hw,
  byte_at-IsByte w (at + 2) hw,
  byte_at-IsByte w (at + 3) hw,
)

get16_bytes :
    (u w : Word) (at j : ℕ)
    → All IsByte u
    → All IsByte w
    → get16 u at ≡ get16 w at
    → at ≤ j
    → j < at + 2
    → byte_at u j ≡ byte_at w j
unfolding get16
get16_bytes u w at j hu hw e lo hi = ground (
  arith,
  byte_at-IsByte u at hu,
  byte_at-IsByte u (at + 1) hu,
  byte_at-IsByte w at hw,
  byte_at-IsByte w (at + 1) hw,
)

get24_bytes :
    (u w : Word) (at j : ℕ)
    → All IsByte u
    → All IsByte w
    → get24 u at ≡ get24 w at
    → at ≤ j
    → j < at + 3
    → byte_at u j ≡ byte_at w j
unfolding get24
get24_bytes u w at j hu hw e lo hi = ground (
  arith,
  byte_at-IsByte u at hu,
  byte_at-IsByte u (at + 1) hu,
  byte_at-IsByte u (at + 2) hu,
  byte_at-IsByte w at hw,
  byte_at-IsByte w (at + 1) hw,
  byte_at-IsByte w (at + 2) hw,
)

module _ (f g : CompactFrame) (hf : IsWord f.header) (hg : IsWord g.header)
    (e : decode_header f ≡ decode_header g) where
  lower_half : (j : ℕ) → j < 16 → byte_at f.header j ≡ byte_at g.header j
  unfolding decode_header
  lower_half j h = elim (dec_lt j 2) [
    | yes a ↦
        get16_bytes _ _ 0 j hf.1 hg.1 (ap (λ (x : Header). x.reserved) e) (omega arith)
          (omega arith)
    | no a ↦ elim (dec_lt j 6) [
      | yes b ↦
          get32_bytes _ _ 2 j hf.1 hg.1 (ap (λ (x : Header). x.written_at) e) (omega arith)
            (omega arith)
      | no b ↦ elim (dec_lt j 10) [
        | yes c ↦
            get32_bytes _ _ 6 j hf.1 hg.1 (ap (λ (x : Header). x.ask_filled_lots) e) (omega arith)
              (omega arith)
        | no c ↦ elim (dec_lt j 14) [
          | yes d ↦
              get32_bytes _ _ 10 j hf.1 hg.1 (ap (λ (x : Header). x.bid_filled_lots) e)
                (omega arith) (omega arith)
          | no d ↦
              get16_bytes _ _ 14 j hf.1 hg.1 (ap (λ (x : Header). x.codec_version) e) (omega arith)
                (omega arith)
        ]
      ]
    ]
  ]

  upper_half : (j : ℕ) → 16 ≤ j → j < 32 → byte_at f.header j ≡ byte_at g.header j
  unfolding decode_header
  upper_half j lo h = elim (dec_lt j 20) [
    | yes a ↦
        get32_bytes _ _ 16 j hf.1 hg.1 (ap (λ (x : Header). x.pair_id) e) (omega arith)
          (omega arith)
    | no a ↦ elim (dec_lt j 23) [
      | yes b ↦
          get24_bytes _ _ 20 j hf.1 hg.1 (ap (λ (x : Header). x.base_tick) e) (omega arith)
            (omega arith)
      | no b ↦ elim (dec_lt j 24) [
        | yes c ↦ ground (arith, ap (λ (x : Header). x.minor_version) e)
        | no c ↦ elim (dec_lt j 28) [
          | yes d ↦
              get32_bytes _ _ 24 j hf.1 hg.1 (ap (λ (x : Header). x.major_version) e) (omega arith)
                (omega arith)
          | no d ↦
              get32_bytes _ _ 28 j hf.1 hg.1 (ap (λ (x : Header). x.updated_at) e) (omega arith)
                (omega arith)
        ]
      ]
    ]
  ]

  -- Frames that decode to one header have one header word.
  pub decode_header-injective : f.header ≡ g.header
  decode_header-injective = list_ext f.header g.header 0 (hf.0 ∙ sym hg.0) (λ j h.
      elim (dec_lt j 16) [
        | yes a ↦ lower_half j a
        | no a ↦ upper_half j (omega arith) (omega arith)
      ])
