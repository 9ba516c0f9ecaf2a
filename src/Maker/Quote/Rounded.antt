-- ===== src/Maker/Quote/Rounded.antt =====
-- What the ticks and lots of quoteLevels of pkg/maker/quote.go are, as fractions of whole numbers.
use takapu_protocol_sdk.Prelude.{
  ℕ, zero, suc, ◌+◌, ◌-◌, ◌*◌, ◌^◌, ◌≤◌, ◌<◌, ◌≡◌, refl, sym, ◌∙◌, arith, Bool, true, false, not,
  ◌&&◌, ltb, leb, List, [], ◌∷◌, length, ok, ℤ, pos, sub_ℕ, magnitude, mul_mono, if-holds, fail_if,
  wrap, >>=-eq-ok, wrap-eq-ok, out_of_range, out_of_range-false_pos,
}
use mathlib.Core.Path.{subst, ap}
use native.Mathlib.Nat.{pow-suc}
use takapu_protocol_sdk.Decimal.Digits.{Text}
use takapu_protocol_sdk.Wire.{PriceLevel}
use takapu_protocol_sdk.Frame.Types.{Level, PairParams, validate_pair, max_tick, max_levels}
use takapu_protocol_sdk.Maker.Quote.{
  Rat, rat_of, scale_by, quote_units, quote_levels_loop, quote_levels, too_many_levels, not_ordered,
  out_of_order, level_price, level_amount,
}
use takapu_protocol_sdk.Maker.Quote.Rounding.{Rounds, quote_units-Rounds}

ten_out : (a b : ℕ) → a * b * 10 ≡ a * 10 * b
ten_out a b = grind arith

pow-add : (j k : ℕ) → 10 ^ (j + k) ≡ 10 ^ j * 10 ^ k
pow-add zero k = grind arith
pow-add (suc j) k =
    let next : suc j + k ≡ suc (j + k) = omega arith in
    ap (λ i. 10 ^ i) next
    ∙ pow-suc 10 (j + k)
    ∙ ap (λ x. x * 10) (pow-add j k)
    ∙ ten_out (10 ^ j) (10 ^ k)
    ∙ ap (λ x. x * 10 ^ k) (sym (pow-suc 10 j))

pow_positive : (k : ℕ) → 0 < 10 ^ k
pow_positive zero = omega arith
pow_positive (suc k) = let h = pow_positive k in omega arith

split_power : (n j k a : ℕ) → j + k ≡ a → n * 10 ^ j * 10 ^ k ≡ n * 10 ^ a
split_power n j k a e =
    let p : 10 ^ a ≡ 10 ^ j * 10 ^ k = ap (λ i. 10 ^ i) (sym e) ∙ pow-add j k in grind arith

-- Scaling by 10^(a - b) is a fraction with 10^a above and 10^b below.
scale_by-fraction :
    (a b : ℕ) (v : Rat)
    → let s = scale_by (sub_ℕ a b) v in
      (m : ℕ) × (0 < m) × (s.num * m ≡ v.num * 10 ^ a) × (s.den * m ≡ v.den * 10 ^ b)
unfolding scale_by
scale_by-fraction a b v =
    if-holds {A = ℤ}
      (λ k.
        let s = scale_by k v in
        (m : ℕ) × (0 < m) × (s.num * m ≡ v.num * 10 ^ a) × (s.den * m ≡ v.den * 10 ^ b))
      (leb b a) (λ up. (10 ^ b, pow_positive b, split_power v.num (a - b) b a (ground arith), refl))
      (λ down.
        (10 ^ a, pow_positive a, refl, split_power v.den (suc (b - a - 1)) a b (ground arith)))

step_out : (d step m e : ℕ) → d * m ≡ e → d * step * m ≡ e * step
step_out d step m e h = let k = ap (λ x. x * step) h in grind arith

Rounds-scaled : (up : Bool) (n d c m : ℕ) → 0 < m → Rounds up n d c → Rounds up (n * m) (d * m) c
Rounds-scaled false n d c m p (low, high) =
    let one = mul_mono m (c * d) n low in
    let two = mul_mono m (n + 1) ((c + 1) * d) (omega arith) in (grind arith, grind arith)
Rounds-scaled true n d c m p (low, high) =
    let one = mul_mono m n (c * d) low in
    let two = mul_mono m (c * d + 1) (n + d) (omega arith) in (grind arith, grind arith)

-- The count `c` of steps `d` in `n`: a bid's price is rounded down, and an ask's is rounded up.
abbrev pub IsPrice : Bool → ℕ → ℕ → ℕ → Type 0
IsPrice true n d c = (c * d ≤ n) × (n < (c + 1) * d)
IsPrice false n d c = (n ≤ c * d) × (c * d < n + d)

Rounds-IsPrice : (bid : Bool) (n d c : ℕ) → Rounds (not bid) n d c → IsPrice bid n d c
Rounds-IsPrice true n d c h = h
Rounds-IsPrice false n d c h = h

-- A level's tick and lots: the tick counts the steps tick_size * 10^base_decimals in the decimal
-- price times 10^(18 + quote_decimals), and the lots are the whole lot sizes in the decimal amount
-- times 10^base_decimals.
pub record IsRounded (pair : PairParams) (bid : Bool) (given : PriceLevel) (out : Level)
    : Type 0 where
  pub tick_positive : 0 < out.offset
  pub tick_fits : out.offset ≤ max_tick
  pub price :
      let price = rat_of given.price in
      IsPrice bid
        (price.num * 10 ^ (18 + pair.quote_decimals))
        (price.den * 10 ^ pair.base_decimals * magnitude pair.price_tick_size)
        out.offset
  pub lots_positive : 0 < out.qty_lots
  pub lots_fit : out.qty_lots ≤ max_tick
  pub amount :
      let amount = rat_of given.amount in
      let step = amount.den * magnitude pair.lot_size in
      (out.qty_lots * step ≤ amount.num * 10 ^ pair.base_decimals)
      × (amount.num * 10 ^ pair.base_decimals < (out.qty_lots + 1) * step)

-- One level for each that was given, in the same order.
abbrev pub AreRounded : PairParams → Bool → List PriceLevel → List Level → Type 0
AreRounded pair bid [] [] = Unit {0}
AreRounded pair bid [] (l ∷ ls) = ⊥
AreRounded pair bid (given ∷ more) [] = ⊥
AreRounded pair bid (given ∷ more) (l ∷ ls) =
    IsRounded pair bid given l × AreRounded pair bid more ls

price-IsPrice :
    (value : Text) (a b step : ℕ) (bid : Bool) (c : ℕ)
    → 0 < step
    → quote_units value (sub_ℕ a b) step (not bid) ≡ ok c
    → (0 < c)
      × (c ≤ max_tick)
      × IsPrice bid ((rat_of value).num * 10 ^ a) ((rat_of value).den * 10 ^ b * step) c
price-IsPrice value a b step bid c p h =
    let (low, high, round) = quote_units-Rounds value (sub_ℕ a b) step (not bid) c p h in
    let v = rat_of value in
    let s : Rat = scale_by (sub_ℕ a b) v in
    let (m, positive, above, below) = scale_by-fraction a b v in
    let scaled = Rounds-scaled (not bid) s.num (s.den * step) c m positive round in
    let under : s.den * step * m ≡ v.den * 10 ^ b * step =
      step_out s.den step m (v.den * 10 ^ b) below in
    (
      low,
      high,
      Rounds-IsPrice bid (v.num * 10 ^ a) (v.den * 10 ^ b * step) c (
          subst (λ d. Rounds (not bid) (v.num * 10 ^ a) d c) under
            (subst (λ n. Rounds (not bid) n (s.den * step * m) c) above scaled)),
    )

amount-Rounds :
    (value : Text) (k step c : ℕ)
    → 0 < step
    → quote_units value (pos k) step false ≡ ok c
    → (0 < c)
      × (c ≤ max_tick)
      × Rounds false ((rat_of value).num * 10 ^ k) ((rat_of value).den * step) c
unfolding scale_by
amount-Rounds value k step c p h = quote_units-Rounds value (pos k) step false c p h

module _ (pair : PairParams) (bid : Bool) (sized : 0 < magnitude pair.price_tick_size)
    (lot : 0 < magnitude pair.lot_size) where
  loop-AreRounded :
      (i prev : ℕ) (levels : List PriceLevel) (out : List Level)
      → quote_levels_loop i prev pair bid levels ≡ ok out
      → AreRounded pair bid levels out
  unfolding quote_levels_loop
  loop-AreRounded i prev [] [] h = tt
  loop-AreRounded i prev [] (l ∷ ls) h = cc
  loop-AreRounded i prev (given ∷ more) out h =
      let price =
        quote_units given.price (sub_ℕ (18 + pair.quote_decimals) pair.base_decimals)
          (magnitude pair.price_tick_size) (not bid) in
      let amount =
        quote_units given.amount (pos pair.base_decimals) (magnitude pair.lot_size) false in
      let (tick, e1, h1) = >>=-eq-ok (wrap (level_price i) price) _ h in
      let (lots, e2, h2) = >>=-eq-ok (wrap (level_amount i) amount) _ h1 in
      let (u, e3, h3) =
        >>=-eq-ok (fail_if (ltb 0 i && out_of_order bid tick prev) not_ordered) _ h2 in
      let (rest, e4, h4) = >>=-eq-ok (quote_levels_loop (i + 1) tick pair bid more) _ h3 in
      let (t1, t2, t3) =
        price-IsPrice given.price (18 + pair.quote_decimals) pair.base_decimals
          (magnitude pair.price_tick_size) bid tick sized (wrap-eq-ok (level_price i) price e1) in
      let (l1, l2, l3) =
        amount-Rounds given.amount pair.base_decimals (magnitude pair.lot_size) lots lot
          (wrap-eq-ok (level_amount i) amount e2) in
      let others = loop-AreRounded (i + 1) tick more rest e4 in
      let same : record { offset = tick; qty_lots = lots } ∷ rest ≡ out = ground (arith, h4) in
      subst (AreRounded pair bid (given ∷ more)) same (
        record {
          tick_positive = t1;
          tick_fits = t2;
          price = t3;
          lots_positive = l1;
          lots_fit = l2;
          amount = l3;
        },
        others,
      )

steps_of :
    (pair : PairParams)
    → validate_pair pair ≡ ok tt
    → (0 < magnitude pair.price_tick_size) × (0 < magnitude pair.lot_size)
unfolding validate_pair
steps_of pair h =
    let tick : out_of_range 128 true pair.price_tick_size ≡ false = ground arith in
    let lot : out_of_range 128 true pair.lot_size ≡ false = ground arith in
    (
      (out_of_range-false_pos 128 pair.price_tick_size tick).0,
      (out_of_range-false_pos 128 pair.lot_size lot).0,
    )

-- What quoteLevels makes of a side, for a pair that ValidatePair accepts, is one level for each decimal
-- level, in the same order. Its tick is the number of steps in the price, rounded down for a bid and
-- up for an ask, so that a bid is never raised and an ask never lowered, and neither by a whole step;
-- its lots are the whole lots in the amount. Both are positive and fit 24 bits.
pub quote_levels-AreRounded :
    (levels : List PriceLevel) (pair : PairParams) (bid : Bool) (out : List Level)
    → validate_pair pair ≡ ok tt
    → quote_levels levels pair bid ≡ ok out
    → AreRounded pair bid levels out
unfolding quote_levels
quote_levels-AreRounded levels pair bid out valid h =
    let (sized, lot) = steps_of pair valid in
    let (u, e1, h1) = >>=-eq-ok (fail_if (ltb max_levels (length levels)) too_many_levels) _ h in
    loop-AreRounded pair bid sized lot 0 0 levels out h1
