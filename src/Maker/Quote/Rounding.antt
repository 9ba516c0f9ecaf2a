-- ===== src/Maker/Quote/Rounding.antt =====
-- The rounding of quoteUnits of pkg/maker/quote.go.
use takapu_protocol_sdk.Prelude.{
  ℕ, zero, suc, ◌+◌, ◌*◌, ◌/◌, ◌%◌, ◌^◌, ◌≤◌, ◌<◌, ◌≡◌, arith, Bool, true, false, not, ◌==◌, ok,
  sym, ℤ, pos, negsuc, length, if-holds, mul_mono,
}
use mathlib.Core.Path.{subst}
use native.Mathlib.Nat.{mod-lt, div-add-mod}
use takapu_protocol_sdk.Decimal.Digits.{Text}
use takapu_protocol_sdk.Decimal.Parse.{cut_dot}
use takapu_protocol_sdk.Frame.Types.{max_tick}
use takapu_protocol_sdk.Maker.Quote.{Rat, rat_of, scale_by, count_units, quote_units}

-- The count `c` is the quotient of `n` by `d`, rounded down, or up if asked.
abbrev pub Rounds : Bool → ℕ → ℕ → ℕ → Type 0
Rounds false n d c = (c * d ≤ n) × (n < (c + 1) * d)
Rounds true n d c = (n ≤ c * d) × (c * d < n + d)

pow_positive : (k : ℕ) → 0 < 10 ^ k
pow_positive zero = omega arith
pow_positive (suc k) = let h = pow_positive k in grind arith

pub product_positive : (a b : ℕ) → 0 < a → 0 < b → 0 < a * b
product_positive a b p q = omega (arith, mul_mono b 1 a p)

pub scaled_den : (scale : ℤ) (value : Text) → 0 < (scale_by scale (rat_of value)).den
unfolding scale_by rat_of
scaled_den (pos k) value = pow_positive (length (cut_dot value).after)
scaled_den (negsuc k) value =
    product_positive (10 ^ length (cut_dot value).after) (10 ^ suc k)
      (pow_positive (length (cut_dot value).after)) (pow_positive (suc k))

round_up :
    (n d q r : ℕ)
    → d * q + r ≡ n
    → r < d
    → not (r == 0) ≡ true
    → (n ≤ (q + 1) * d) × ((q + 1) * d < n + d)
round_up n d q r whole small part =
    let some_left : 0 < r = ground arith in (grind arith, grind arith)

round_whole :
    (n d q r : ℕ) → d * q + r ≡ n → 0 < d → not (r == 0) ≡ false → (n ≤ q * d) × (q * d < n + d)
round_whole n d q r whole p none_left =
    let nothing : r ≡ 0 = ground arith in (grind arith, grind arith)

count_units-Rounds :
    (v : Rat) (step : ℕ) (up : Bool)
    → 0 < v.den * step
    → Rounds up v.num (v.den * step) (count_units v step up)
unfolding count_units
count_units-Rounds v step false p =
    let d = v.den * step in
    let whole = div-add-mod v.num d in let small = mod-lt v.num p in (grind arith, grind arith)
count_units-Rounds v step true p =
    let d = v.den * step in
    let whole = div-add-mod v.num d in
    if-holds (Rounds true v.num d) (not (v.num % d == 0))
      (λ part. round_up v.num d (v.num / d) (v.num % d) whole (mod-lt v.num p) part)
      (λ none_left. round_whole v.num d (v.num / d) (v.num % d) whole p none_left)

quote_units_parts :
    (value : Text) (scale : ℤ) (step : ℕ) (up : Bool) (c : ℕ)
    → quote_units value scale step up ≡ ok c
    → (c ≡ count_units (scale_by scale (rat_of value)) step up) × (0 < c) × (c ≤ max_tick)
unfolding quote_units
quote_units_parts value scale step up c h = ground arith

-- For a positive step, a count that quoteUnits returns is a positive uint24 and the exact count of
-- the scaled decimal over the step, rounded up if asked and down otherwise.
pub quote_units-Rounds :
    (value : Text) (scale : ℤ) (step : ℕ) (up : Bool) (c : ℕ)
    → 0 < step
    → quote_units value scale step up ≡ ok c
    → let v = scale_by scale (rat_of value) in
      (0 < c) × (c ≤ max_tick) × Rounds up v.num (v.den * step) c
quote_units-Rounds value scale step up c positive h =
    let (e, low, high) = quote_units_parts value scale step up c h in
    let v : Rat = scale_by scale (rat_of value) in
    (
      low,
      high,
      subst (Rounds up v.num (v.den * step)) (sym e) (
          count_units-Rounds v step up
            (product_positive v.den step (scaled_den scale value) positive)),
    )
