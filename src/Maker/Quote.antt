-- ===== src/Maker/Quote.antt =====
-- pkg/maker/quote.go: the conversion of a maker's decimals to ticks and lots.
pub mod Rounding
pub mod Rounded
pub mod Ladder
pub mod Quotable
use takapu_protocol_sdk.Prelude.{
  ℕ, suc, ◌+◌, ◌-◌, ◌*◌, ◌/◌, ◌%◌, ◌^◌, ◌<◌, List, [], ◌∷◌, ◌++◌, Bool, true, false, not, ◌&&◌,
  ◌||◌, ltb, leb, ◌==◌, if◌then◌else◌, length, magnitude, ℤ, pos, negsuc, sub_ℕ, Result, ok, err,
  fail_if, wrap, ◌>>=◌, ◌>>◌,
}
use takapu_protocol_sdk.Decimal.Digits.{Text, all_digits, set_string}
use takapu_protocol_sdk.Decimal.Print.{is_empty}
use takapu_protocol_sdk.Decimal.Parse.{cut_dot}
use takapu_protocol_sdk.Wire.{PriceLevel}
use takapu_protocol_sdk.Frame.Types.{
  Address, Level, PairParams, FrameSpec, validate_pair, max_tick, max_levels,
  supported_codec_version,
}
use takapu_protocol_sdk.Frame.Errors.{FrameError}

pub data MakerError : Type 0 where
  not_plain_decimal not_positive count_range too_many_levels not_ordered crossed_book : MakerError
  quote_pair : FrameError → MakerError
  level_price level_amount : ℕ → MakerError → MakerError
  bids asks : MakerError → MakerError

-- `quoteDecimalPattern`
unfoldable pub is_plain_decimal : Text → Bool
is_plain_decimal value =
    let parts = cut_dot value in
    not (is_empty parts.before)
    && all_digits parts.before
    && (not parts.found || not (is_empty parts.after) && all_digits parts.after)

-- A nonnegative `big.Rat`, not in lowest terms: the code uses its sign, its order, its floor and
-- whether it is whole, which do not depend on that.
pub record Rat : Type 0 where
  pub num : ℕ
  pub den : ℕ

-- `SetString` on a plain decimal.
unfoldable pub rat_of : Text → Rat
rat_of value =
    let parts = cut_dot value in
    record { num = set_string (parts.before ++ parts.after); den = 10 ^ length parts.after }

-- The product with `10^scale`.
unfoldable pub scale_by : ℤ → Rat → Rat
scale_by (pos k) v = record { num = v.num * 10 ^ k; den = v.den }
scale_by (negsuc k) v = record { num = v.num; den = v.den * 10 ^ suc k }

-- `v.Quo(v, step)`; then the quotient and the remainder, rounded up if asked.
unfoldable pub count_units : Rat → ℕ → Bool → ℕ
count_units v step round_up =
    let den = v.den * step in
    let count = v.num / den in if round_up && not (v.num % den == 0) then count + 1 else count

-- `quoteUnits`
unfoldable pub quote_units : Text → ℤ → ℕ → Bool → Result MakerError ℕ
quote_units value scale step round_up = do
  fail_if (length value == 0 || ltb 64 (length value) || not (is_plain_decimal value))
      not_plain_decimal
  fail_if ((rat_of value).num == 0) not_positive
  let count = count_units (scale_by scale (rat_of value)) step round_up
  fail_if (count == 0 || ltb max_tick count) count_range
  ok count

-- `(bid && tick >= prev) || (!bid && tick <= prev)`
abbrev pub out_of_order : Bool → ℕ → ℕ → Bool
out_of_order true tick prev = leb prev tick
out_of_order false tick prev = leb tick prev

-- The loop of `quoteLevels`; `prev` is the tick before, which is read for i > 0 only.
unfoldable pub quote_levels_loop :
    ℕ → ℕ → PairParams → Bool → List PriceLevel → Result MakerError (List Level)
quote_levels_loop i prev pair bid [] = ok []
quote_levels_loop i prev pair bid (level ∷ levels) = do
  tick ← wrap (level_price i) (
      quote_units level.price (sub_ℕ (18 + pair.quote_decimals) pair.base_decimals)
        (magnitude pair.price_tick_size) (not bid))
  lots ←
      wrap (level_amount i)
        (quote_units level.amount (pos pair.base_decimals) (magnitude pair.lot_size) false)
  fail_if (ltb 0 i && out_of_order bid tick prev) not_ordered
  rest ← quote_levels_loop (i + 1) tick pair bid levels
  ok (record { offset = tick; qty_lots = lots } ∷ rest)

-- `quoteLevels`; an offset is the absolute tick here.
unfoldable pub quote_levels : List PriceLevel → PairParams → Bool → Result MakerError (List Level)
quote_levels levels pair bid = do
  fail_if (ltb max_levels (length levels)) too_many_levels
  quote_levels_loop 0 0 pair bid levels

-- `PublishParams`; the signer is given apart.
pub record PublishParams : Type 0 where
  pub chain_id : ℕ
  pub protocol : Address
  pub maker : Address
  pub pair : PairParams
  pub bids : List PriceLevel
  pub asks : List PriceLevel
  pub updated_at : ℕ
  pub major_version : ℕ
  pub minor_version : ℕ

-- Whether the best bid exceeds the best ask, as decimals.
unfoldable pub is_crossed : List PriceLevel → List PriceLevel → Bool
is_crossed [] more = false
is_crossed (b ∷ bs) [] = false
is_crossed (b ∷ bs) (a ∷ more) =
    let bid = rat_of b.price in
    let ask = rat_of a.price in ltb (ask.num * bid.den) (bid.num * ask.den)

-- The common reference `base`.
unfoldable pub base_of : List Level → List Level → ℕ
base_of [] [] = 1
base_of [] (a ∷ more) = a.offset
base_of (b ∷ bs) more = b.offset

-- The two loops that make the offsets relative; uint32 wraps.
unfoldable pub below_base : ℕ → List Level → List Level
below_base base [] = []
below_base base (l ∷ ls) =
    record { offset = (base + 2 ^ 32 - l.offset) % 2 ^ 32; qty_lots = l.qty_lots }
    ∷ below_base base ls

unfoldable pub above_base : ℕ → List Level → List Level
above_base base [] = []
above_base base (l ∷ ls) =
    record { offset = (l.offset + 2 ^ 32 - base) % 2 ^ 32; qty_lots = l.qty_lots }
    ∷ above_base base ls

-- `quoteSpec`
unfoldable pub quote_spec : PublishParams → Result MakerError FrameSpec
quote_spec params = do
  wrap quote_pair (validate_pair params.pair)
  bid_levels ← wrap bids (quote_levels params.bids params.pair true)
  ask_levels ← wrap asks (quote_levels params.asks params.pair false)
  fail_if (is_crossed params.bids params.asks) crossed_book
  let base = base_of bid_levels ask_levels
  ok (record {
    chain_id = params.chain_id;
    protocol = params.protocol;
    maker = params.maker;
    pair = params.pair;
    base_tick = base;
    bids = below_base base bid_levels;
    asks = above_base base ask_levels;
    updated_at = params.updated_at;
    major_version = params.major_version;
    minor_version = params.minor_version;
    codec_version = supported_codec_version;
  })
