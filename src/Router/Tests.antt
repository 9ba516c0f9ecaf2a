-- ===== src/Router/Tests.antt =====
-- Concrete quotes of pkg/router/quote.go.
use takapu_protocol_sdk.Prelude.{
  ◌≡◌, ◌≤◌, ◌<◌, ◌-◌, ◌+◌, ◌↔◌, refl, arith, List, [], ◌∷◌, ok, some, pos, true, inr,
}
use takapu_protocol_sdk.Frame.Types.{PairParams}
use takapu_protocol_sdk.Wire.{PriceLevel}
use takapu_protocol_sdk.Decimal.Parse.{quote_decimal, cut_dot, shift_digits}
use takapu_protocol_sdk.Decimal.Digits.{all_digits, read_digits}
use takapu_protocol_sdk.Router.Quote.{
  QuoteConfig, match_quote, apply_output_fee, leg_budget_with_input_fee, buy_level, match_loop,
  match_level, fill_level, quote_cost, base_affordable,
}
use takapu_protocol_sdk.Router.Quote.Fees.{
  input_fee, leg_budget_with_input_fee_largest, apply_output_fee_positive,
}
use takapu_protocol_sdk.Router.Quote.Fill.{IsPurchase, buy_level-IsPurchase}
use takapu_protocol_sdk.Router.Quote.Budget.{match_quote_mono}
use takapu_protocol_sdk.Router.Quote.Spend.{Fill, Fits, outlay, proceeds, total, match_quote-Fits}
use takapu_protocol_sdk.Frame.Types.{CompactFrame}
use takapu_protocol_sdk.Frame.Words.{get16, get24, get32}
use takapu_protocol_sdk.Frame.Codec.{
  encode_compact_frame, validate_compact_frame, decode_compact_frame, decode_header, decode_levels,
  decode_levels_loop, slot,
}
use takapu_protocol_sdk.Frame.Signing.{set_bytes, recovery_bit, normalize_with, normalize_signature}
use takapu_protocol_sdk.Frame.Tests.{
  weth_usdc, book, book_frame, crypto, text, signer, context, signed_book, book-InRange, build_book,
}
use takapu_protocol_sdk.Protocol.Validation.{validate_signed, uint256}
use takapu_protocol_sdk.Protocol.Swap.{swap, encode_swap_call, validate_swap, validate_updates}
use takapu_protocol_sdk.Protocol.Swap.Calldata.{fits}
use takapu_protocol_sdk.Protocol.Tests.{codecs}
use takapu_protocol_sdk.Router.Swap.{SwapRequest, SwapCall, build_swap_with, build_swap_call}
use takapu_protocol_sdk.Router.Swap.Carried.{IsBuilt, build_swap_call-IsBuilt}
use takapu_protocol_sdk.Router.Swap.Signed.{IsRequest, params_of, build_swap_call-build_and_sign}

abbrev pair : PairParams
pair = record {
  pair_id = 7;
  base_token = 0x11;
  quote_token = 0x22;
  base_decimals = 2;
  quote_decimals = 2;
  price_tick_size = some (pos 1);
  lot_size = some (pos 1);
}

-- A fee of one percent on the quote token.
abbrev one_percent : QuoteConfig
one_percent = record {
  pair = pair;
  fee_token = 0x22;
  fee_rate_ppm = 10_000;
  decay_start_offset_seconds = 30;
}

abbrev asks : List PriceLevel
asks =
    record { price = b'2' ∷ []; amount = b'1' ∷ b'0' ∷ [] }
    ∷ record { price = b'2' ∷ b'.' ∷ b'5' ∷ []; amount = b'4' ∷ [] }
    ∷ []

buy_10 : match_quote asks 0x22 0x11 1000 one_percent ≡ ok 495
unfolding match_quote match_loop leg_budget_with_input_fee match_level quote_decimal cut_dot
    all_digits shift_digits read_digits fill_level buy_level quote_cost base_affordable
    apply_output_fee
buy_10 = refl

buy_30 : match_quote asks 0x22 0x11 2600 one_percent ≡ ok 1230
unfolding match_quote match_loop leg_budget_with_input_fee match_level quote_decimal cut_dot
    all_digits shift_digits read_digits fill_level buy_level quote_cost base_affordable
    apply_output_fee
buy_30 = refl

match_quote_mono_example : 495 ≤ 1230
match_quote_mono_example =
    match_quote_mono asks 0x22 0x11 1000 2600 one_percent 495 1230 (omega arith) (omega arith)
      buy_10 buy_30

match_quote-Fits_example :
    (fs : List Fill) × Fits pair asks fs
    × (total (outlay true) fs + input_fee one_percent 0x22 (total (outlay true) fs) ≤ 1000)
    × (495 + input_fee one_percent 0x11 (total (proceeds true) fs) ≡ total (proceeds true) fs)
    × (0 < 495)
match_quote-Fits_example = match_quote-Fits asks 0x22 0x11 1000 one_percent 495 (omega arith) buy_10

leg_budget_with_input_fee_largest_example :
    (990 + input_fee one_percent 0x22 990 ≤ 1000)
    ↔ (990 ≤ leg_budget_with_input_fee 1000 one_percent 0x22)
leg_budget_with_input_fee_largest_example =
    leg_budget_with_input_fee_largest 1000 one_percent 0x22 990

apply_output_fee_positive_example :
    (apply_output_fee 1 one_percent 0x22 ≡ ok (1 - input_fee one_percent 0x22 1))
    × (input_fee one_percent 0x22 1 < 1)
apply_output_fee_positive_example =
    apply_output_fee_positive 1 one_percent 0x22 (omega arith) (omega arith)

buy_level-IsPurchase_example :
    IsPurchase 400 2_500_000_000_000_000_000 575 (buy_level 400 2_500_000_000_000_000_000 575)
buy_level-IsPurchase_example = buy_level-IsPurchase 400 2_500_000_000_000_000_000 575 (omega arith)

-- A request for the book of Frame.Tests: USDC for WETH.
abbrev request : SwapRequest
request = record {
  token_in = 0x22;
  token_out = 0x11;
  amount_in = some (pos 1000);
  min_amount_out = some (pos 0);
  recipient = 0x55;
}

request-IsRequest : IsRequest weth_usdc true request
request-IsRequest = record {
  direction = inr (refl, refl, refl);
  offers = omega arith;
  amount = fits 1000 (omega arith);
  minimum = fits 0 (omega arith);
  recipient = omega arith;
}

build_swap_call-build_and_sign_example :
    (f : CompactFrame) × (encode_compact_frame book ≡ ok f)
    × (let params = params_of book f signed_book.signature true request in
        build_swap_call crypto codecs text swap (some signed_book) request
        ≡ ok (record { params = params; calldata = [] }))
build_swap_call-build_and_sign_example =
    build_swap_call-build_and_sign crypto codecs text swap (λ p. []) (some context) book signer
      signed_book true request book-InRange build_book refl request-IsRequest (λ a. refl)
      (λ p good. refl)

abbrev built : SwapCall
built = record {
  params = params_of book book_frame signed_book.signature true request;
  calldata = [];
}

build_book_swap : build_swap_call crypto codecs text swap (some signed_book) request ≡ ok built
unfolding build_swap_call build_swap_with encode_swap_call validate_swap validate_updates
    validate_signed uint256 normalize_signature normalize_with recovery_bit set_bytes
    validate_compact_frame decode_compact_frame decode_header get16 get32 get24 decode_levels
    decode_levels_loop slot
build_book_swap = refl

build_swap_call-IsBuilt_example : IsBuilt crypto codecs text swap signed_book request built
build_swap_call-IsBuilt_example =
    build_swap_call-IsBuilt crypto codecs text swap signed_book request built build_book_swap
