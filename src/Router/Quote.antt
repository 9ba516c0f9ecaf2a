-- ===== src/Router/Quote.antt =====
-- pkg/router/quote.go: the local quote for a decoded market frame. QuoteConfig is of types.go.
pub mod Fees
pub mod Fill
pub mod Budget
pub mod Spend
use takapu_protocol_sdk.Prelude.{
  ℕ, zero, suc, ◌+◌, ◌-◌, ◌*◌, ◌/◌, ◌^◌, List, [], ◌∷◌, Bool, true, false, not, ◌&&◌, ◌||◌, ltb,
  leb, ◌==◌, if◌then◌else◌, Option, none, some, xor, BigInt, magnitude, out_of_range, ℤ, pos, sub_ℕ,
  Result, ok, err, fail_if, wrap, ◌>>=◌, ◌>>◌,
}
use takapu_protocol_sdk.Decimal.Digits.{Text}
use takapu_protocol_sdk.Decimal.Parse.{DecimalError, quote_decimal}
use takapu_protocol_sdk.Frame.Errors.{FrameError}
use takapu_protocol_sdk.Frame.Types.{Address, PairParams, validate_pair}
use takapu_protocol_sdk.Wire.{PriceLevel, PairKey, MarketFrame, AddressText}

pub data QuoteError : Type 0 where
  frame_required future_frame expired_frame amount_not_positive : QuoteError
  quote_pair : FrameError → QuoteError
  token_direction fee_configuration fee_token_foreign pair_mismatch : QuoteError
  level_price level_amount : ℕ → DecimalError → QuoteError
  output_exceeds_uint256 zero_output : QuoteError

pub record QuoteConfig : Type 0 where
  pub pair : PairParams
  pub fee_token : Address
  pub fee_rate_ppm : ℕ
  pub decay_start_offset_seconds : ℕ

-- `quotePPM` and `priceScale18`
abbrev pub quote_ppm : ℕ
quote_ppm = 1_000_000

abbrev pub price_scale_18 : ℕ
price_scale_18 = 1_000_000_000_000_000_000

-- `quoteCost`: ceil(base * price / 1e18)
unfoldable pub quote_cost : ℕ → ℕ → ℕ
quote_cost base price = (base * price + (price_scale_18 - 1)) / price_scale_18

-- `quoteValue`: floor(base * price / 1e18)
unfoldable pub quote_value : ℕ → ℕ → ℕ
quote_value base price = base * price / price_scale_18

-- `baseAffordable`: floor(budget * 1e18 / price)
unfoldable pub base_affordable : ℕ → ℕ → ℕ
base_affordable budget price = budget * price_scale_18 / price

-- `quoteDeduction`
unfoldable pub quote_deduction : ℕ → ℕ → ℕ
quote_deduction amount rate = amount * rate / quote_ppm

-- `legBudgetWithInputFee`
unfoldable pub leg_budget_with_input_fee : ℕ → QuoteConfig → Address → ℕ
leg_budget_with_input_fee amount_in cfg token_in =
    if cfg.fee_rate_ppm == 0 || not (cfg.fee_token == token_in)
    then amount_in
    else ((amount_in + 1) * quote_ppm - 1) / (quote_ppm + cfg.fee_rate_ppm)

-- `applyOutputFee`
unfoldable pub apply_output_fee : ℕ → QuoteConfig → Address → Result QuoteError ℕ
apply_output_fee gross cfg token_out =
    let net : ℕ =
      if ltb 0 cfg.fee_rate_ppm && cfg.fee_token == token_out
      then gross - quote_deduction gross cfg.fee_rate_ppm
      else gross in
    if net == 0 then err zero_output else ok net

-- What one level does to the loop: how much of the input is spent, what comes out, and whether the
-- loop goes on.
pub record LevelFill : Type 0 where
  pub spent : ℕ
  pub got : ℕ
  pub go_on : Bool

-- The branch `if buy`: a purchase of base from an ask level.
unfoldable pub buy_level : ℕ → ℕ → ℕ → LevelFill
buy_level depth price budget =
    let take : ℕ = base_affordable budget price in
    if not (ltb budget (quote_cost depth price))
    then record { spent = quote_cost depth price; got = depth; go_on = true }
    else if take == 0
    then record { spent = 0; got = 0; go_on = false }
    else record { spent = quote_cost take price; got = take; go_on = not (ltb take depth) }

-- The other branch: a sale of base into a bid level.
unfoldable pub sell_level : ℕ → ℕ → ℕ → LevelFill
sell_level depth price budget =
    let take : ℕ = if ltb budget depth then budget else depth in
    record { spent = take; got = quote_value take price; go_on = true }

unfoldable pub fill_level : Bool → ℕ → ℕ → ℕ → LevelFill
fill_level true depth price budget = buy_level depth price budget
fill_level false depth price budget = sell_level depth price budget

-- The scales of readable prices and amounts.
abbrev pub price_scale : PairParams → ℤ
price_scale pair = sub_ℕ (18 + pair.quote_decimals) pair.base_decimals

abbrev pub amount_scale : PairParams → ℤ
amount_scale pair = pos pair.base_decimals

-- The body of the loop of `matchQuote`; `next` is the rest of the loop.
unfoldable pub match_level :
    Bool → PairParams → ℕ → PriceLevel → ℕ → ℕ → (ℕ → ℕ → Result QuoteError ℕ) → Result QuoteError ℕ
match_level buy pair i level budget out next = do
  price ← wrap (level_price i) (quote_decimal level.price (price_scale pair))
  depth ← wrap (level_amount i) (quote_decimal level.amount (amount_scale pair))
  let fill : LevelFill = fill_level buy depth price budget
  if not fill.go_on
      then ok (out + fill.got)
      else if leb (2 ^ 256) (out + fill.got)
      then err output_exceeds_uint256
      else next (budget - fill.spent) (out + fill.got)

-- The loop of `matchQuote` over the levels from index `i` on; the result is the gross output.
unfoldable pub match_loop : Bool → PairParams → ℕ → List PriceLevel → ℕ → ℕ → Result QuoteError ℕ
match_loop buy pair i [] budget out = ok out
match_loop buy pair i (level ∷ levels) budget out =
    let next = λ (b o : ℕ). match_loop buy pair (i + 1) levels b o in
    if budget == 0 then ok out else match_level buy pair i level budget out next

-- `matchQuote`
unfoldable pub match_quote :
    List PriceLevel → Address → Address → ℕ → QuoteConfig → Result QuoteError ℕ
match_quote levels token_in token_out amount_in cfg = do
  out ←
      match_loop (token_in == cfg.pair.quote_token) cfg.pair 0 levels
        (leg_budget_with_input_fee amount_in cfg token_in) 0
  apply_output_fee out cfg token_out

-- The check of `validateQuote` on the frame's pair.
unfoldable pub pair_matches : AddressText → PairKey → PairParams → Bool
pair_matches text key pair =
    key.pair_id == pair.pair_id
    && text.is_hex_address key.base_token
    && text.is_hex_address key.quote_token
    && text.hex_to_address key.base_token == pair.base_token
    && text.hex_to_address key.quote_token == pair.quote_token

-- `validateQuote`
unfoldable pub validate_quote :
    AddressText
    → Option MarketFrame
    → Address
    → Address
    → BigInt
    → QuoteConfig
    → ℕ
    → Result QuoteError (Unit {0})
validate_quote text none token_in token_out amount_in cfg now = err frame_required
validate_quote text (some value) token_in token_out amount_in cfg now = elim value.pair [
  | none ↦ err frame_required
  | some key ↦ do
    fail_if (ltb now value.updated_at) future_frame
    fail_if (ltb cfg.decay_start_offset_seconds (now - value.updated_at)) expired_frame
    fail_if (out_of_range 256 true amount_in) amount_not_positive
    wrap quote_pair (validate_pair cfg.pair)
    fail_if
        (not (token_in == cfg.pair.base_token && token_out == cfg.pair.quote_token)
          && not (token_in == cfg.pair.quote_token && token_out == cfg.pair.base_token))
        token_direction
    fail_if (leb quote_ppm cfg.fee_rate_ppm || xor (cfg.fee_rate_ppm == 0) (cfg.fee_token == 0))
        fee_configuration
    fail_if
        (not (cfg.fee_token == 0)
          && not (cfg.fee_token == cfg.pair.base_token)
          && not (cfg.fee_token == cfg.pair.quote_token))
        fee_token_foreign
    fail_if (not (pair_matches text key cfg.pair)) pair_mismatch
]

abbrev pub side_of : MarketFrame → Address → QuoteConfig → List PriceLevel
side_of value token_in cfg = if token_in == cfg.pair.quote_token then value.asks else value.bids

-- `Quote`, at the Unix second `now`.
unfoldable pub quote :
    AddressText
    → Option MarketFrame
    → Address
    → Address
    → BigInt
    → QuoteConfig
    → ℕ
    → Result QuoteError ℕ
quote text value token_in token_out amount_in cfg now = do
  validate_quote text value token_in token_out amount_in cfg now
  elim value [
    | none ↦ err frame_required
    | some v ↦ match_quote (side_of v token_in cfg) token_in token_out (magnitude amount_in) cfg
  ]
