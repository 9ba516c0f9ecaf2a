-- ===== src/Maker/Quote/Quotable.antt =====
-- The specifications that quoteSpec of pkg/maker/quote.go makes, for the codec of pkg/frame.
use takapu_protocol_sdk.Prelude.{
  ℕ, suc, ◌+◌, ◌*◌, ◌^◌, ◌≤◌, ◌<◌, ◌≡◌, refl, arith, true, false, List, [], ◌∷◌, length, magnitude,
  mul_mono, ℤ, pos, negsuc, sub_ℕ, ok, inl, inr, Result-cases, out_of_range, out_of_range-false_pos,
}
use mathlib.Core.Path.{subst}
use native.Mathlib.Nat.{le_of_mul-le-mul_right}
use takapu_protocol_sdk.Wire.{PriceLevel}
use takapu_protocol_sdk.Frame.Types.{
  Level, PairParams, FrameSpec, validate_pair, max_tick, supported_codec_version,
}
use takapu_protocol_sdk.Frame.Codec.RoundTrip.{IsQuotable}
use takapu_protocol_sdk.Maker.Quote.{
  PublishParams, Rat, rat_of, scale_by, quote_units, quote_levels, is_crossed, base_of, below_base,
  above_base, quote_spec,
}
use takapu_protocol_sdk.Maker.Quote.Rounding.{quote_units-Rounds, scaled_den, product_positive}
use takapu_protocol_sdk.Maker.Quote.Ladder.{
  IsCount, Falls, Climbs, quote_levels-Falls, quote_levels-Climbs, quote_levels-first,
  below_base-last, above_base-last, below_base-AscendsFrom, above_base-AscendsFrom,
}

cross_scaled :
    (scale : ℤ) (b a : Rat)
    → b.num * a.den ≤ a.num * b.den
    → (scale_by scale b).num * (scale_by scale a).den
      ≤ (scale_by scale a).num * (scale_by scale b).den
unfolding scale_by
cross_scaled (pos k) b a h =
    let m = mul_mono (10 ^ k) (b.num * a.den) (a.num * b.den) h in grind arith
cross_scaled (negsuc k) b a h =
    let m = mul_mono (10 ^ suc k) (b.num * a.den) (a.num * b.den) h in grind arith

-- A bid that is not above an ask has no greater tick: one is rounded down, the other up.
rounded_below :
    (nb db na da step cb ca : ℕ)
    → nb * da ≤ na * db
    → cb * (db * step) ≤ nb
    → na ≤ ca * (da * step)
    → 0 < da * (db * step)
    → cb ≤ ca
rounded_below nb db na da step cb ca cross low high p =
    let one = mul_mono da (cb * (db * step)) nb low in
    let two = mul_mono db na (ca * (da * step)) high in
    let k = da * (db * step) in
    let chain : cb * k ≤ ca * k = grind arith in le_of_mul-le-mul_right chain p

first_below :
    (bid ask : PriceLevel) (scale : ℤ) (step cb ca : ℕ)
    → 0 < step
    → (rat_of bid.price).num * (rat_of ask.price).den
      ≤ (rat_of ask.price).num * (rat_of bid.price).den
    → quote_units bid.price scale step false ≡ ok cb
    → quote_units ask.price scale step true ≡ ok ca
    → cb ≤ ca
first_below bid ask scale step cb ca p cross eb ea =
    let b : Rat = scale_by scale (rat_of bid.price) in
    let a : Rat = scale_by scale (rat_of ask.price) in
    let (pb, hb, low) = quote_units-Rounds bid.price scale step false cb p eb in
    let (pa, ha, high) = quote_units-Rounds ask.price scale step true ca p ea in
    let k =
      product_positive a.den (b.den * step) (scaled_den scale ask.price)
        (product_positive b.den step (scaled_den scale bid.price) p) in
    rounded_below b.num b.den a.num a.den step cb ca
      (cross_scaled scale (rat_of bid.price) (rat_of ask.price) cross) low.0 high.0 k

-- The two sides stand on their sides of the base that quoteSpec takes.
abbrev Stands : ℕ → List Level → List Level → Type 0
Stands base b a = IsCount base × Falls base b × Climbs base a

stands :
    (pair : PairParams) (bs more : List PriceLevel) (b a : List Level)
    → 0 < magnitude pair.price_tick_size
    → quote_levels bs pair true ≡ ok b
    → quote_levels more pair false ≡ ok a
    → is_crossed bs more ≡ false
    → length b ≡ length bs
    → length a ≡ length more
    → Falls max_tick b
    → Climbs 0 a
    → Stands (base_of b a) b a
unfolding is_crossed base_of
stands pair bs more [] [] p eb ea open_book lb la falls climbs =
    ((omega arith, omega arith), tt, tt)
stands pair bs more [] (a ∷ ls) p eb ea open_book lb la falls (over, count, lots, climbs) =
    (count, tt, (omega arith, count, lots, climbs))
stands pair bs more (b ∷ rest) [] p eb ea open_book lb la (under, count, lots, falls) climbs =
    (count, (omega arith, count, lots, falls), tt)
stands pair [] more (b ∷ rest) (a ∷ ls) p eb ea open_book lb la falls climbs = absurd (omega arith)
stands pair (x ∷ bs) [] (b ∷ rest) (a ∷ ls) p eb ea open_book lb la falls climbs =
    absurd (omega arith)
stands pair (x ∷ bs) (y ∷ more) (b ∷ rest) (a ∷ ls) p eb ea open_book lb la
      (under, count, lots, falls) (over, asked, sizes, climbs) =
    let bid = rat_of x.price in
    let ask = rat_of y.price in
    let cross : bid.num * ask.den ≤ ask.num * bid.den = ground arith in
    let below =
      first_below x y (sub_ℕ (18 + pair.quote_decimals) pair.base_decimals)
        (magnitude pair.price_tick_size) b.offset a.offset p cross
        (quote_levels-first x bs pair true b rest eb)
        (quote_levels-first y more pair false a ls ea) in
    (count, (omega arith, count, lots, falls), (below, asked, sizes, climbs))

pub spec_parts :
    (params : PublishParams) (spec : FrameSpec)
    → quote_spec params ≡ ok spec
    → (b : List Level) × (a : List Level) × (validate_pair params.pair ≡ ok tt)
      × (quote_levels params.bids params.pair true ≡ ok b)
      × (quote_levels params.asks params.pair false ≡ ok a)
      × (is_crossed params.bids params.asks ≡ false)
      × (record {
        chain_id = params.chain_id;
        protocol = params.protocol;
        maker = params.maker;
        pair = params.pair;
        base_tick = base_of b a;
        bids = below_base (base_of b a) b;
        asks = above_base (base_of b a) a;
        updated_at = params.updated_at;
        major_version = params.major_version;
        minor_version = params.minor_version;
        codec_version = supported_codec_version;
      }
          ≡ spec)
unfolding quote_spec
spec_parts params spec h = elim (Result-cases (validate_pair params.pair)) [
  | inr (e, q) ↦ absurd (ground arith)
  | inl (u, q) ↦ elim (Result-cases (quote_levels params.bids params.pair true)) [
    | inr (e, q2) ↦ absurd (ground arith)
    | inl (b, q2) ↦ elim (Result-cases (quote_levels params.asks params.pair false)) [
      | inr (e, q3) ↦ absurd (ground arith)
      | inl (a, q3) ↦ (b, a, q, q2, q3, ground arith, ground arith)
    ]
  ]
]

step_of :
    (pair : PairParams)
    → validate_pair pair ≡ ok tt
    → (0 < pair.pair_id) × (0 < magnitude pair.price_tick_size)
unfolding validate_pair
step_of pair h =
    let tick : out_of_range 128 true pair.price_tick_size ≡ false = ground arith in
    (ground arith, (out_of_range-false_pos 128 pair.price_tick_size tick).0)

-- Every specification that quoteSpec makes of a maker's decimals can be encoded: its version is the
-- supported one, its pair id and base tick are positive, and each side has at most five levels, whose
-- offsets increase strictly from the base and whose ticks and lots are positive and fit 24 bits. Each
-- side stands on its own side of the base, since a best bid that is not above the best ask as a
-- decimal does not pass it by rounding.
pub quote_spec-IsQuotable :
    (params : PublishParams) (spec : FrameSpec) → quote_spec params ≡ ok spec → IsQuotable spec
quote_spec-IsQuotable params spec h =
    let (b, a, valid, eb, ea, open_book, same) = spec_parts params spec h in
    let (paired, step) = step_of params.pair valid in
    let (falls, lb, fb) = quote_levels-Falls params.bids params.pair b eb in
    let (climbs, la, fa) = quote_levels-Climbs params.asks params.pair a ea in
    let (count, down, up) =
      stands params.pair params.bids params.asks b a step eb ea open_book lb la falls climbs in
    let base = base_of b a in
    let (nb, pb) = below_base-last base base b (omega arith) count.1 down in
    let (na, pa) = above_base-last base base a (omega arith) count.1 up in
    subst IsQuotable same (record {
      version = refl;
      paired = paired;
      base_positive = count.0;
      base_fits = count.1;
      bid_side =
          (omega (arith, nb, fb), below_base-AscendsFrom base 0 base b (omega arith) count.1 down);
      ask_side =
          (omega (arith, na, fa), above_base-AscendsFrom base 0 base a (omega arith) count.1 up);
      bid_prices = pb;
      ask_prices = pa;
    })
