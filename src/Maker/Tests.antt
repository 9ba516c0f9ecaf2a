-- ===== src/Maker/Tests.antt =====
-- Concrete conversions of pkg/maker/quote.go.
use takapu_protocol_sdk.Prelude.{
  List, ◌≡◌, refl, true, [], ◌∷◌, ok, pos, some, replicate, ◌++◌, true,
}
use takapu_protocol_sdk.Decimal.Digits.{Text, all_digits, read_digits}
use takapu_protocol_sdk.Decimal.Parse.{cut_dot}
use takapu_protocol_sdk.Maker.Quote.{is_plain_decimal, rat_of, scale_by, count_units, quote_units}
use takapu_protocol_sdk.Maker.Quote.Rounded.{AreRounded, quote_levels-AreRounded}
use takapu_protocol_sdk.Frame.Types.{Level, FrameSpec, CompactFrame, validate_pair}
use takapu_protocol_sdk.Frame.Codec.RoundTrip.{IsQuotable}
use takapu_protocol_sdk.Frame.Tests.{
  weth_usdc, book_header, crypto, context, signer, normal_signature,
}
use takapu_protocol_sdk.Frame.Words.{get16, get24, get32}
use takapu_protocol_sdk.Frame.Codec.{
  encode_compact_frame, decode_compact_frame, encode_levels, decode_levels, encode_levels_loop,
  validate_compact_frame, encode_header, put_slot, decode_header, decode_levels_loop, slot,
}
use takapu_protocol_sdk.Frame.Signing.{
  SignedFrame, set_bytes, recovery_bit, normalize_with, normalize_signature, validate_domain,
  digest, signing_digest, check_recovered, verify_signature, check_context, sign_with, sign_frame,
}
use takapu_protocol_sdk.Frame.Prepare.{prepare_signing_payload}
use takapu_protocol_sdk.Protocol.Tests.{client, options}
use takapu_protocol_sdk.Maker.Client.{submitted_frame}
use takapu_protocol_sdk.Maker.Client.Submitted.{domain_at, submitted_frame-verifies}
use takapu_protocol_sdk.Maker.Quote.{
  PublishParams, quote_spec, quote_levels, quote_levels_loop, is_crossed, base_of, below_base,
  above_base,
}
use takapu_protocol_sdk.Maker.Quote.Quotable.{quote_spec-IsQuotable}

abbrev price : Text
price = b'2' ∷ b'.' ∷ b'5' ∷ []

-- 250 over 3, rounded up.
price_up : quote_units price (pos 2) 3 true ≡ ok 84
unfolding quote_units is_plain_decimal rat_of scale_by count_units cut_dot all_digits read_digits
price_up = refl

-- A bid of 70,000.5 and an ask of 70,001.2 USDC on ticks of one.
abbrev quote : PublishParams
quote = record {
  chain_id = 1;
  protocol = 0x33;
  maker = 0x44;
  pair = weth_usdc;
  bids =
      record {
        price = b'7' ∷ b'0' ∷ b'0' ∷ b'0' ∷ b'0' ∷ b'.' ∷ b'5' ∷ [];
        amount = b'0' ∷ b'.' ∷ b'0' ∷ b'0' ∷ b'1' ∷ [];
      }
      ∷ [];
  asks =
      record {
        price = b'7' ∷ b'0' ∷ b'0' ∷ b'0' ∷ b'1' ∷ b'.' ∷ b'2' ∷ [];
        amount = b'0' ∷ b'.' ∷ b'0' ∷ b'0' ∷ b'2' ∷ [];
      }
      ∷ [];
  updated_at = 1_700_000_000;
  major_version = 3;
  minor_version = 4;
}

abbrev quoted : FrameSpec
quoted = record {
  chain_id = 1;
  protocol = 0x33;
  maker = 0x44;
  pair = weth_usdc;
  base_tick = 70_000;
  bids = record { offset = 0; qty_lots = 1_000_000 } ∷ [];
  asks = record { offset = 2; qty_lots = 2_000_000 } ∷ [];
  updated_at = 1_700_000_000;
  major_version = 3;
  minor_version = 4;
  codec_version = 1;
}

quote_quoted : quote_spec quote ≡ ok quoted
unfolding quote_spec validate_pair quote_levels quote_levels_loop quote_units is_plain_decimal
    rat_of scale_by count_units cut_dot all_digits read_digits is_crossed base_of below_base
    above_base
quote_quoted = refl

quote_spec-IsQuotable_example : IsQuotable quoted
quote_spec-IsQuotable_example = quote_spec-IsQuotable quote quoted quote_quoted

abbrev quoted_bids : List Level
quoted_bids = record { offset = 70_000; qty_lots = 1_000_000 } ∷ []

valid_quote_pair : validate_pair weth_usdc ≡ ok tt
unfolding validate_pair
valid_quote_pair = refl

quote_bids : quote_levels quote.bids weth_usdc true ≡ ok quoted_bids
unfolding quote_levels quote_levels_loop quote_units is_plain_decimal rat_of scale_by count_units
    cut_dot all_digits read_digits
quote_bids = refl

quote_levels-AreRounded_example : AreRounded weth_usdc true quote.bids quoted_bids
quote_levels-AreRounded_example =
    quote_levels-AreRounded quote.bids weth_usdc true quoted_bids valid_quote_pair quote_bids

-- The frame that SubmitFrameUpdate makes of the quote.
abbrev quoted_frame : CompactFrame
quoted_frame = record {
  header = book_header;
  bid_levels = replicate 26 0 ++ (0 ∷ 0 ∷ 0 ∷ 15 ∷ 66 ∷ 64 ∷ []);
  ask_levels = replicate 26 0 ++ (0 ∷ 0 ∷ 2 ∷ 30 ∷ 132 ∷ 128 ∷ []);
}

abbrev submitted : SignedFrame
submitted = record { frame = quoted_frame; maker = 0x44; signature = normal_signature }

submit_quote :
    submitted_frame crypto true (some client) (some options) context quote (some signer)
    ≡ ok submitted
unfolding submitted_frame quote_spec validate_pair quote_levels quote_levels_loop quote_units
    is_plain_decimal rat_of scale_by count_units cut_dot all_digits read_digits is_crossed base_of
    below_base above_base prepare_signing_payload encode_compact_frame encode_levels
    encode_levels_loop validate_compact_frame encode_header put_slot decode_compact_frame
    decode_header get16 get32 get24 decode_levels decode_levels_loop slot sign_frame check_context
    sign_with verify_signature signing_digest validate_domain digest check_recovered
    normalize_signature normalize_with recovery_bit set_bytes
submit_quote = refl

submitted_frame-verifies_example :
    (spec : FrameSpec) × (quote_spec quote ≡ ok spec)
    × (encode_compact_frame spec ≡ ok quoted_frame)
    × (0x44 ≡ quote.maker)
    × (verify_signature crypto (domain_at client) submitted 5 ≡ ok tt)
submitted_frame-verifies_example =
    submitted_frame-verifies crypto client (some options) context quote signer submitted
      submit_quote
