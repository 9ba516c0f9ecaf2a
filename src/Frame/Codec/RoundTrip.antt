-- ===== src/Frame/Codec/RoundTrip.antt =====
-- encodeCompactFrame and decodeCompactFrame of pkg/frame/codec.go are inverse to each other, and
-- encoding succeeds exactly on the books that the codec can carry.
use takapu_protocol_sdk.Prelude.{
  ◌+◌, ◌≤◌, ◌<◌, ◌≡◌, sym, ◌∙◌, ap, ◌↔◌, ◌⊎◌, arith, length, ok, List, Result-cases, ok-injective,
  inl, inr,
}
use takapu_protocol_sdk.Frame.Words.{Word, zero_word}
use takapu_protocol_sdk.Frame.Types.{
  Level, CompactFrame, FrameSpec, supported_codec_version, max_tick,
}
use takapu_protocol_sdk.Frame.Codec.{
  DecodedCompactFrame, last_offset, decode_header, decode_levels, decode_compact_frame,
  validate_compact_frame, encode_header, encode_levels, encode_compact_frame,
}
use takapu_protocol_sdk.Frame.Codec.Slots.{IsWord}
use takapu_protocol_sdk.Frame.Codec.Place.{IsSide, place, place-IsWord, zero_word-IsWord}
use takapu_protocol_sdk.Frame.Codec.Levels.{
  encode_levels-ok, encode_levels-IsSide, decode_levels-encode_levels,
}
use takapu_protocol_sdk.Frame.Codec.Decode.{decode_levels-inv, encode_levels-decode_levels}
use takapu_protocol_sdk.Frame.Codec.HeaderWord.{
  header_of, InRange, HeaderBounds, decode_header_bounds, decode_header-encode_header,
  encode_header-IsWord, decode_header-injective,
}
use mathlib.Core.Path.{subst}

-- The books that the codec can carry: at most five levels on each side, best price first, and every
-- price a tick from 1 to 2^24 - 1.
pub record IsQuotable (spec : FrameSpec) : Type 0 where
  pub version : spec.codec_version ≡ supported_codec_version
  pub paired : 0 < spec.pair.pair_id
  pub base_positive : 0 < spec.base_tick
  pub base_fits : spec.base_tick ≤ max_tick
  pub bid_side : IsSide spec.bids
  pub ask_side : IsSide spec.asks
  pub bid_prices : (length spec.bids ≡ 0) ⊎ (last_offset spec.bids < spec.base_tick)
  pub ask_prices : (length spec.asks ≡ 0) ⊎ (last_offset spec.asks + spec.base_tick ≤ max_tick)

-- The frame that encodeCompactFrame writes.
abbrev pub frame_of : FrameSpec → CompactFrame
frame_of spec = record {
  header = encode_header spec;
  bid_levels = place 0 spec.bids zero_word;
  ask_levels = place 0 spec.asks zero_word;
}

abbrev pub decoded_of : FrameSpec → DecodedCompactFrame
decoded_of spec = record { header = header_of spec; bids = spec.bids; asks = spec.asks }

-- The parts of a successful encoding.
encode_parts :
    (spec : FrameSpec) (f : CompactFrame)
    → encode_compact_frame spec ≡ ok f
    → (spec.codec_version ≡ supported_codec_version)
      × (0 < spec.base_tick)
      × (spec.base_tick ≤ max_tick)
      × (encode_levels spec.bids ≡ ok f.bid_levels)
      × (encode_levels spec.asks ≡ ok f.ask_levels)
      × (f.header ≡ encode_header spec)
      × (validate_compact_frame f ≡ ok tt)
unfolding encode_compact_frame
encode_parts spec f h = ground arith

validate_parts :
    (f : CompactFrame)
    → validate_compact_frame f ≡ ok tt
    → (d : DecodedCompactFrame) × (decode_compact_frame f ≡ ok d)
unfolding validate_compact_frame
validate_parts f h = elim (Result-cases (decode_compact_frame f)) [
  | inl (d, e) ↦ (d, e)
  | inr (x, e) ↦ cc
]

-- The parts of a successful decoding.
decode_parts :
    (f : CompactFrame) (d : DecodedCompactFrame)
    → decode_compact_frame f ≡ ok d
    → (d.header ≡ decode_header f)
      × (decode_levels f.bid_levels ≡ ok d.bids)
      × (decode_levels f.ask_levels ≡ ok d.asks)
unfolding decode_compact_frame
decode_parts f d h = ground arith

decode_prices :
    (f : CompactFrame) (d : DecodedCompactFrame)
    → decode_compact_frame f ≡ ok d
    → (d.header.codec_version ≡ supported_codec_version)
      × (0 < d.header.pair_id)
      × (0 < d.header.base_tick)
      × ((length d.bids ≡ 0) ⊎ (last_offset d.bids < d.header.base_tick))
      × ((length d.asks ≡ 0) ⊎ (last_offset d.asks + d.header.base_tick ≤ max_tick))
unfolding decode_compact_frame
decode_prices f d h = ground arith

decode_clear :
    (f : CompactFrame) (d : DecodedCompactFrame)
    → decode_compact_frame f ≡ ok d
    → (d.header.bid_filled_lots ≡ 0)
      × (d.header.ask_filled_lots ≡ 0)
      × (d.header.written_at ≡ 0)
      × (d.header.reserved ≡ 0)
unfolding decode_compact_frame
decode_clear f d h = ground arith

-- A frame with the header and the sides of a quotable book decodes to them.
decode_compact_frame-ok :
    (spec : FrameSpec) (f : CompactFrame)
    → IsQuotable spec
    → decode_header f ≡ header_of spec
    → decode_levels f.bid_levels ≡ ok spec.bids
    → decode_levels f.ask_levels ≡ ok spec.asks
    → decode_compact_frame f ≡ ok (decoded_of spec)
unfolding decode_compact_frame
decode_compact_frame-ok spec f q eh eb ea = rw (eh, eb, ea) (ground arith)

encode-ok :
    (spec : FrameSpec)
    → InRange spec
    → IsQuotable spec
    → encode_compact_frame spec ≡ ok (frame_of spec)
unfolding encode_compact_frame validate_compact_frame
encode-ok spec r q =
    let eb = encode_levels-ok spec.bids q.bid_side in
    let ea = encode_levels-ok spec.asks q.ask_side in
    ground (
      arith,
      eb,
      ea,
      decode_compact_frame-ok spec (frame_of spec) q
          (decode_header-encode_header spec _ _ r q.base_fits)
          (decode_levels-encode_levels spec.bids _ eb) (decode_levels-encode_levels spec.asks _ ea),
    )

header_eq :
    (spec : FrameSpec) (f : CompactFrame)
    → InRange spec
    → spec.base_tick ≤ max_tick
    → f.header ≡ encode_header spec
    → decode_header f ≡ header_of spec
header_eq spec f r fits eh =
    ap
      (λ w.
        decode_header (record { header = w; bid_levels = f.bid_levels; ask_levels = f.ask_levels }))
      eh
    ∙ decode_header-encode_header spec f.bid_levels f.ask_levels r fits

decoded_eq :
    (spec : FrameSpec) (d : DecodedCompactFrame)
    → d.header ≡ header_of spec
    → d.bids ≡ spec.bids
    → d.asks ≡ spec.asks
    → d ≡ decoded_of spec
decoded_eq spec d e f g = λ k. record { header = e k; bids = f k; asks = g k }

-- Whatever is encoded is read back.
encode-decoded :
    (spec : FrameSpec) (f : CompactFrame)
    → InRange spec
    → encode_compact_frame spec ≡ ok f
    → decode_compact_frame f ≡ ok (decoded_of spec)
encode-decoded spec f r h =
    let (version, positive, fits, eb, ea, eh, valid) = encode_parts spec f h in
    let (d, e) = validate_parts f valid in
    let (dh, db, da) = decode_parts f d e in
    e
    ∙ ap ok (
        decoded_eq spec d (dh ∙ header_eq spec f r fits eh)
          (ok-injective _ db (decode_levels-encode_levels spec.bids f.bid_levels eb))
          (ok-injective _ da (decode_levels-encode_levels spec.asks f.ask_levels ea)))

encode-IsQuotable :
    (spec : FrameSpec) (f : CompactFrame)
    → InRange spec
    → encode_compact_frame spec ≡ ok f
    → IsQuotable spec
encode-IsQuotable spec f r h =
    let (version, positive, fits, eb, ea, eh, valid) = encode_parts spec f h in
    let (ver, pair, base, pb, pa) = decode_prices f (decoded_of spec) (encode-decoded spec f r h) in
    record {
      version = version;
      paired = pair;
      base_positive = positive;
      base_fits = fits;
      bid_side = encode_levels-IsSide spec.bids f.bid_levels eb;
      ask_side = encode_levels-IsSide spec.asks f.ask_levels ea;
      bid_prices = pb;
      ask_prices = pa;
    }

-- On a specification whose fields lie in the ranges of their Go types, encodeCompactFrame succeeds
-- exactly if the book is quotable.
pub encode_compact_frame_iff :
    (spec : FrameSpec)
    → InRange spec
    → ((f : CompactFrame) × (encode_compact_frame spec ≡ ok f)) ↔ IsQuotable spec
encode_compact_frame_iff spec r =
    (λ p. encode-IsQuotable spec p.0 r p.1, λ q. (frame_of spec, encode-ok spec r q))

-- On a specification whose fields lie in the ranges of their Go types, a frame that
-- encodeCompactFrame returns consists of three 32-byte words, and decodeCompactFrame reads from it
-- the header fields and both sides of the book as they were given, with every field that the
-- protocol owns zero.
pub decode_compact_frame-encode_compact_frame :
    (spec : FrameSpec) (f : CompactFrame)
    → InRange spec
    → encode_compact_frame spec ≡ ok f
    → (decode_compact_frame f ≡ ok (decoded_of spec))
      × IsWord f.header
      × IsWord f.bid_levels
      × IsWord f.ask_levels
decode_compact_frame-encode_compact_frame spec f r h =
    let (version, positive, fits, eb, ea, eh, valid) = encode_parts spec f h in
    (
      encode-decoded spec f r h,
      subst IsWord (sym eh) (encode_header-IsWord spec r),
      levels_word spec.bids f.bid_levels eb,
      levels_word spec.asks f.ask_levels ea,
    )
  where
    levels_word : (ls : List Level) (w : Word) → encode_levels ls ≡ ok w → IsWord w
    levels_word ls w e =
        subst IsWord (ok-injective _ (encode_levels-ok ls (encode_levels-IsSide ls w e)) e)
          (place-IsWord 0 ls zero_word zero_word-IsWord)

-- The specification that asks for a decoded frame, on the chain and with the tokens of `spec`.
abbrev pub respecify : FrameSpec → DecodedCompactFrame → FrameSpec
respecify spec d = record spec {
  pair = record spec.pair { pair_id = d.header.pair_id };
  base_tick = d.header.base_tick;
  bids = d.bids;
  asks = d.asks;
  updated_at = d.header.updated_at;
  major_version = d.header.major_version;
  minor_version = d.header.minor_version;
  codec_version = d.header.codec_version;
}

module _ (spec : FrameSpec) (f : CompactFrame) (d : DecodedCompactFrame) (wh : IsWord f.header)
    (wb : IsWord f.bid_levels) (wa : IsWord f.ask_levels) (h : decode_compact_frame f ≡ ok d) where
  bounds : HeaderBounds d.header
  bounds = subst HeaderBounds (sym (decode_parts f d h).0) (decode_header_bounds f wh)

  respecify-InRange : InRange (respecify spec d)
  respecify-InRange = omega (arith, bounds)

  respecify-IsQuotable : IsQuotable (respecify spec d)
  respecify-IsQuotable =
      let (dh, db, da) = decode_parts f d h in
      let (ver, pair, base, pb, pa) = decode_prices f d h in
      record {
        version = ver;
        paired = pair;
        base_positive = base;
        base_fits = bounds.5;
        bid_side = (decode_levels-inv f.bid_levels d.bids wb.1 db).0;
        ask_side = (decode_levels-inv f.ask_levels d.asks wa.1 da).0;
        bid_prices = pb;
        ask_prices = pa;
      }

  header_of-respecify : header_of (respecify spec d) ≡ d.header
  header_of-respecify =
      let (bid, ask, time, res) = decode_clear f d h in
      λ k. record {
        updated_at = d.header.updated_at;
        major_version = d.header.major_version;
        minor_version = d.header.minor_version;
        base_tick = d.header.base_tick;
        pair_id = d.header.pair_id;
        codec_version = d.header.codec_version;
        bid_filled_lots = sym bid k;
        ask_filled_lots = sym ask k;
        written_at = sym time k;
        reserved = sym res k;
      }

  level_word :
      (w : Word) (ls : List Level) → IsWord w → decode_levels w ≡ ok ls → place 0 ls zero_word ≡ w
  level_word w ls hw e =
      ok-injective _ (encode_levels-ok ls (decode_levels-inv w ls hw.1 e).0)
        (encode_levels-decode_levels w ls hw e)

  -- The words of a frame are the ones that encodeCompactFrame writes.
  frame_of-respecify : frame_of (respecify spec d) ≡ f
  frame_of-respecify =
      let (dh, db, da) = decode_parts f d h in
      let header_word =
        decode_header-injective (frame_of (respecify spec d)) f
          (encode_header-IsWord (respecify spec d) respecify-InRange) wh
          (decode_header-encode_header (respecify spec d) _ _ respecify-InRange bounds.5
            ∙ header_of-respecify
            ∙ dh) in
      λ k. record {
        header = header_word k;
        bid_levels = level_word f.bid_levels d.bids wb db k;
        ask_levels = level_word f.ask_levels d.asks wa da k;
      }

-- A frame of three 32-byte words that decodeCompactFrame accepts is the one that encodeCompactFrame
-- returns for the decoded book, whatever chain, tokens and maker are named: no other frame stands
-- for the same book.
pub encode_compact_frame-decode_compact_frame :
    (spec : FrameSpec) (f : CompactFrame) (d : DecodedCompactFrame)
    → IsWord f.header
    → IsWord f.bid_levels
    → IsWord f.ask_levels
    → decode_compact_frame f ≡ ok d
    → encode_compact_frame (respecify spec d) ≡ ok f
encode_compact_frame-decode_compact_frame spec f d wh wb wa h =
    encode-ok (respecify spec d) (respecify-InRange spec f d wh wb wa h)
      (respecify-IsQuotable spec f d wh wb wa h)
    ∙ ap ok (frame_of-respecify spec f d wh wb wa h)
