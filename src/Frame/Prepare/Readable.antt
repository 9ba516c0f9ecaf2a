-- ===== src/Frame/Prepare/Readable.antt =====
-- The readable levels of pkg/frame/decimal.go against the integers that are signed.
use takapu_protocol_sdk.Prelude.{
  ℕ, ◌*◌, ◌^◌, ◌≤◌, ◌<◌, ◌≡◌, arith, Bool, true, false, List, [], ◌∷◌, ok, inl, inr, length,
  magnitude, pos, mul_mono, Result-cases, out_of_range-false_pos,
}
use mathlib.Core.Path.{subst}
use takapu_protocol_sdk.Decimal.Print.{decimal}
use takapu_protocol_sdk.Decimal.Parse.{quote_decimal}
use takapu_protocol_sdk.Decimal.RoundTrip.{quote_decimal-decimal}
use takapu_protocol_sdk.Wire.{PriceLevel}
use takapu_protocol_sdk.Frame.Types.{Level, PairParams, validate_pair}
use takapu_protocol_sdk.Frame.Prepare.{tick_of, readable_scale, human_level, human_levels}

-- The levels that have a price and an amount.
abbrev pub Priced : ℕ → Bool → List Level → Type 0
Priced base bid [] = Unit {0}
Priced base bid (l ∷ ls) =
    (0 < tick_of base bid l) × (0 < l.qty_lots) × (l.qty_lots < 2 ^ 32) × Priced base bid ls

-- Every readable level, read at the pair's scales, is the signed tick and lots times their sizes.
abbrev pub ReadsBack : ℕ → Bool → PairParams → List Level → List PriceLevel → Type 0
ReadsBack base bid pair [] [] = Unit {0}
ReadsBack base bid pair [] (p ∷ ps) = ⊥
ReadsBack base bid pair (l ∷ ls) [] = ⊥
ReadsBack base bid pair (l ∷ ls) (p ∷ ps) =
    (quote_decimal p.price (readable_scale pair)
      ≡ ok (tick_of base bid l * magnitude pair.price_tick_size))
    × (quote_decimal p.amount (pos pair.base_decimals) ≡ ok (l.qty_lots * magnitude pair.lot_size))
    × ReadsBack base bid pair ls ps

-- A positive product within uint256.
product_fits :
    (a b : ℕ) → 0 < a → a < 2 ^ 64 → 0 < b → b < 2 ^ 128 → (0 < a * b) × (a * b < 2 ^ 256)
product_fits a b a0 a1 b0 b1 = omega (arith, mul_mono b 1 a a0, mul_mono b a (2 ^ 64) (omega arith))

tick_of-bound : (base : ℕ) (bid : Bool) (l : Level) → tick_of base bid l < 2 ^ 64
tick_of-bound base true l = omega arith
tick_of-bound base false l = omega arith

validate_pair-sizes :
    (pair : PairParams)
    → validate_pair pair ≡ ok tt
    → (0 < magnitude pair.price_tick_size)
      × (magnitude pair.price_tick_size < 2 ^ 128)
      × (0 < magnitude pair.lot_size)
      × (magnitude pair.lot_size < 2 ^ 128)
unfolding validate_pair
validate_pair-sizes pair h =
    let (p0, p1) = out_of_range-false_pos 128 pair.price_tick_size (ground arith) in
    let (l0, l1) = out_of_range-false_pos 128 pair.lot_size (ground arith) in (p0, p1, l0, l1)

human_level_parts :
    (base : ℕ) (bid : Bool) (pair : PairParams) (l : Level) (p : PriceLevel)
    → human_level base bid pair l ≡ ok p
    → (p.price
        ≡ decimal (tick_of base bid l * magnitude pair.price_tick_size) (readable_scale pair))
      × (p.amount ≡ decimal (l.qty_lots * magnitude pair.lot_size) (pos pair.base_decimals))
      × (length p.price ≤ 64)
      × (length p.amount ≤ 64)
unfolding human_level
human_level_parts base bid pair l p h = ground arith

human_level-reads :
    (base : ℕ) (bid : Bool) (pair : PairParams) (l : Level) (p : PriceLevel)
    → validate_pair pair ≡ ok tt
    → 0 < tick_of base bid l
    → 0 < l.qty_lots
    → l.qty_lots < 2 ^ 32
    → human_level base bid pair l ≡ ok p
    → (quote_decimal p.price (readable_scale pair)
        ≡ ok (tick_of base bid l * magnitude pair.price_tick_size))
      × (quote_decimal p.amount (pos pair.base_decimals)
          ≡ ok (l.qty_lots * magnitude pair.lot_size))
human_level-reads base bid pair l p valid tick lots small h =
    let (p0, p1, l0, l1) = validate_pair-sizes pair valid in
    let (ep, ea, lenp, lena) = human_level_parts base bid pair l p h in
    let (u0, u1) =
      product_fits (tick_of base bid l) (magnitude pair.price_tick_size) tick
        (tick_of-bound base bid l) p0 p1 in
    let (v0, v1) = product_fits l.qty_lots (magnitude pair.lot_size) lots (omega arith) l0 l1 in
    (
      rw ep (
          quote_decimal-decimal _ (readable_scale pair) u0 u1 (subst (λ t. length t ≤ 64) ep lenp)),
      rw ea (
          quote_decimal-decimal _ (pos pair.base_decimals) v0 v1
            (subst (λ t. length t ≤ 64) ea lena)),
    )

human_levels_parts :
    (base : ℕ) (bid : Bool) (pair : PairParams) (l : Level) (ls : List Level)
    (out : List PriceLevel)
    → human_levels base bid pair (l ∷ ls) ≡ ok out
    → (p : PriceLevel) × (ps : List PriceLevel) × (human_level base bid pair l ≡ ok p)
      × (human_levels base bid pair ls ≡ ok ps)
      × (out ≡ p ∷ ps)
unfolding human_levels
human_levels_parts base bid pair l ls out h = elim (Result-cases (human_level base bid pair l)) [
  | inr (e, q) ↦ absurd (ground arith)
  | inl (p, q) ↦ elim (Result-cases (human_levels base bid pair ls)) [
    | inr (e, q2) ↦ absurd (ground arith)
    | inl (ps, q2) ↦ (p, ps, q, q2, ground arith)
  ]
]

-- The readable levels that Prepare shows are exact: for a pair that ValidatePair accepts and levels
-- with a positive tick and a positive lot quantity below 2^32, every price and amount that
-- humanLevels prints is read back by the router's quoteDecimal, at the pair's scales, as the tick
-- times the tick size and the lots times the lot size.
pub human_levels-ReadsBack :
    (base : ℕ) (bid : Bool) (pair : PairParams) (ls : List Level) (out : List PriceLevel)
    → validate_pair pair ≡ ok tt
    → Priced base bid ls
    → human_levels base bid pair ls ≡ ok out
    → ReadsBack base bid pair ls out
unfolding human_levels
human_levels-ReadsBack base bid pair [] [] valid priced h = tt
human_levels-ReadsBack base bid pair [] (p ∷ ps) valid priced h = cc
human_levels-ReadsBack base bid pair (l ∷ ls) out valid (tick, lots, small, priced) h =
    let (p, ps, e, rest, eq) = human_levels_parts base bid pair l ls out h in
    let (price, amount) = human_level-reads base bid pair l p valid tick lots small e in
    rw eq (price, amount, human_levels-ReadsBack base bid pair ls ps valid priced rest)
