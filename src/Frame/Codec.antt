-- ===== src/Frame/Codec.antt =====
-- The codec of pkg/frame/codec.go: DecodeHeader, DecodeLevels, decodeCompactFrame,
-- encodeLevels, encodeCompactFrame.
pub mod Slots
pub mod Place
pub mod Levels
pub mod Decode
pub mod HeaderWord
pub mod RoundTrip
use takapu_protocol_sdk.Prelude.{
  ℕ, zero, suc, ◌+◌, ◌-◌, ◌*◌, List, [], ◌∷◌, ◌++◌, Bool, true, false, not, ◌&&◌, ◌||◌, ltb, leb,
  ◌==◌, if◌then◌else◌, length, set, Result, ok, err, ◌>>=◌, ◌>>◌, fail_if, wrap,
}
use takapu_protocol_sdk.Frame.Words.{
  Word, zero_word, byte_at, put16, put24, put32, get16, get24, get32,
}
use takapu_protocol_sdk.Frame.Types.{
  Level, CompactFrame, Header, FrameSpec, supported_codec_version, max_levels, max_tick,
}
use takapu_protocol_sdk.Frame.Errors.{
  FrameError, reserved_level_bits, no_quantity, follows_empty, offsets_not_increasing,
  codec_version_unknown, protocol_owned_fields, pair_id_zero, base_tick_zero, bids, asks,
  bid_below_one_tick, ask_exceeds_uint24, base_tick_range, too_many_levels, level_range,
}

-- `DecodeHeader`
unfoldable pub decode_header : CompactFrame → Header
decode_header value = record {
  updated_at = get32 value.header 28;
  major_version = get32 value.header 24;
  minor_version = byte_at value.header 23;
  base_tick = get24 value.header 20;
  pair_id = get32 value.header 16;
  codec_version = get16 value.header 14;
  bid_filled_lots = get32 value.header 10;
  ask_filled_lots = get32 value.header 6;
  written_at = get32 value.header 2;
  reserved = get16 value.header 0;
}

-- `start := 32 - (i+1)*6`
abbrev pub slot_start : ℕ → ℕ
slot_start i = 32 - (i + 1) * 6

-- The level that the slot `i` of a word holds.
unfoldable pub slot : Word → ℕ → Level
slot word i = record {
  offset = get24 word (slot_start i);
  qty_lots = get24 word (slot_start i + 3);
}

-- `out[len(out)-1].Offset`
abbrev pub last_offset : List Level → ℕ
last_offset [] = 0
last_offset (l ∷ []) = l.offset
last_offset (l ∷ m ∷ ls) = last_offset (m ∷ ls)

-- The loop of `DecodeLevels`, with `rounds` of the five rounds left.
unfoldable pub decode_levels_loop :
    ℕ → ℕ → Word → List Level → Bool → Result FrameError (List Level)
decode_levels_loop zero i word out closed = ok out
decode_levels_loop (suc rounds) i word out closed =
    let level : Level = slot word i in
    let skip = decode_levels_loop rounds (i + 1) word out true in
    let next = decode_levels_loop rounds (i + 1) word (out ++ level ∷ []) closed in
    if level.offset == 0 && level.qty_lots == 0 then skip else do
      fail_if (level.qty_lots == 0) (no_quantity i)
      fail_if closed (follows_empty i)
      fail_if (ltb 0 (length out) && leb level.offset (last_offset out)) (offsets_not_increasing i)
      next

-- `DecodeLevels`
unfoldable pub decode_levels : Word → Result FrameError (List Level)
decode_levels word = do
  fail_if (not (byte_at word 0 == 0) || not (byte_at word 1 == 0)) reserved_level_bits
  decode_levels_loop max_levels 0 word [] false

pub record DecodedCompactFrame : Type 0 where
  pub header : Header
  pub bids : List Level
  pub asks : List Level

-- `decodeCompactFrame`
unfoldable pub decode_compact_frame : CompactFrame → Result FrameError DecodedCompactFrame
decode_compact_frame value = do
  let h = decode_header value
  fail_if (not (h.codec_version == supported_codec_version)) codec_version_unknown
  fail_if
      (not (h.bid_filled_lots == 0)
        || not (h.ask_filled_lots == 0)
        || not (h.written_at == 0)
        || not (h.reserved == 0))
      protocol_owned_fields
  fail_if (h.pair_id == 0) pair_id_zero
  fail_if (h.base_tick == 0) base_tick_zero
  bs ← wrap bids (decode_levels value.bid_levels)
  as' ← wrap asks (decode_levels value.ask_levels)
  fail_if (ltb 0 (length bs) && leb h.base_tick (last_offset bs)) bid_below_one_tick
  fail_if (ltb 0 (length as') && ltb max_tick (last_offset as' + h.base_tick)) ask_exceeds_uint24
  ok (record { header = h; bids = bs; asks = as' })

-- `ValidateCompactFrame`
unfoldable pub validate_compact_frame : CompactFrame → Result FrameError (Unit {0})
validate_compact_frame value = do d ← decode_compact_frame value; ok tt

-- The two calls of `put24` on the slot `i`.
unfoldable pub put_slot : Word → ℕ → Level → Word
put_slot out i l = put24 (put24 out (slot_start i) l.offset) (slot_start i + 3) l.qty_lots

-- The loop of `encodeLevels`; `prev` is `levels[i-1].Offset`, which is read for i > 0 only.
unfoldable pub encode_levels_loop : ℕ → ℕ → List Level → Word → Result FrameError Word
encode_levels_loop i prev [] out = ok out
encode_levels_loop i prev (l ∷ ls) out = do
  fail_if (ltb max_tick l.offset || l.qty_lots == 0 || ltb max_tick l.qty_lots) (level_range i)
  fail_if (ltb 0 i && leb l.offset prev) (offsets_not_increasing i)
  encode_levels_loop (i + 1) l.offset ls (put_slot out i l)

-- `encodeLevels`
unfoldable pub encode_levels : List Level → Result FrameError Word
encode_levels levels = do
  fail_if (ltb max_levels (length levels)) too_many_levels
  encode_levels_loop 0 0 levels zero_word

-- The header that `encodeCompactFrame` fills in.
unfoldable pub encode_header : FrameSpec → Word
unfolding put16 put24 put32
encode_header spec =
    let a = put16 zero_word 14 spec.codec_version in
    let b = put32 a 16 spec.pair.pair_id in
    let c = put24 b 20 spec.base_tick in
    let d = set c 23 spec.minor_version in
    let e = put32 d 24 spec.major_version in put32 e 28 spec.updated_at

-- `encodeCompactFrame`
unfoldable pub encode_compact_frame : FrameSpec → Result FrameError CompactFrame
encode_compact_frame spec = do
  fail_if (not (spec.codec_version == supported_codec_version)) codec_version_unknown
  fail_if (spec.base_tick == 0 || ltb max_tick spec.base_tick) base_tick_range
  b ← wrap bids (encode_levels spec.bids)
  a ← wrap asks (encode_levels spec.asks)
  let f : CompactFrame = record { header = encode_header spec; bid_levels = b; ask_levels = a }
  validate_compact_frame f
  ok f
