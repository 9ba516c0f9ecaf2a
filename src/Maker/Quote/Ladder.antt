-- ===== src/Maker/Quote/Ladder.antt =====
-- The ticks of quoteLevels of pkg/maker/quote.go, and the offsets that quoteSpec makes of them.
use takapu_protocol_sdk.Prelude.{
  ℕ, suc, ◌+◌, ◌-◌, ◌%◌, ◌^◌, ◌≤◌, ◌<◌, ◌≡◌, ◌⊎◌, inl, inr, refl, arith, Bool, true, false, not,
  ◌&&◌, ltb, List, [], ◌∷◌, length, magnitude, ℤ, pos, sub_ℕ, ok, Result-cases,
}
use mathlib.Core.Path.{subst}
use takapu_protocol_sdk.Decimal.Digits.{Text}
use takapu_protocol_sdk.Wire.{PriceLevel}
use takapu_protocol_sdk.Frame.Types.{Level, PairParams, max_tick}
use takapu_protocol_sdk.Frame.Codec.{last_offset}
use takapu_protocol_sdk.Frame.Codec.Place.{AscendsFrom}
use takapu_protocol_sdk.Maker.Quote.{
  quote_units, out_of_order, quote_levels_loop, quote_levels, below_base, above_base,
}

-- A count that a decimal gives is positive and fits 24 bits.
abbrev pub IsCount : ℕ → Type 0
IsCount n = (0 < n) × (n ≤ max_tick)

pub quote_units-IsCount :
    (value : Text) (scale : ℤ) (step : ℕ) (up : Bool) (n : ℕ)
    → quote_units value scale step up ≡ ok n
    → IsCount n
unfolding quote_units
quote_units-IsCount value scale step up n h = ground arith

-- Ticks that fall strictly from `hi` on, with lots in range.
abbrev pub Falls : ℕ → List Level → Type 0
Falls hi [] = Unit {0}
Falls hi (l ∷ ls) =
    (l.offset ≤ hi) × IsCount l.offset × IsCount l.qty_lots × Falls (l.offset - 1) ls

-- Ticks that rise strictly from `lo` on.
abbrev pub Climbs : ℕ → List Level → Type 0
Climbs lo [] = Unit {0}
Climbs lo (l ∷ ls) =
    (lo ≤ l.offset) × IsCount l.offset × IsCount l.qty_lots × Climbs (l.offset + 1) ls

-- One round of the loop of quoteLevels.
level_parts :
    (i prev : ℕ) (pair : PairParams) (bid : Bool) (level : PriceLevel) (levels : List PriceLevel)
    (out : List Level)
    → quote_levels_loop i prev pair bid (level ∷ levels) ≡ ok out
    → (tick : ℕ) × (lots : ℕ) × (rest : List Level) × (quote_units level.price
          (sub_ℕ (18 + pair.quote_decimals) pair.base_decimals)
          (magnitude pair.price_tick_size)
          (not bid)
        ≡ ok tick)
      × IsCount lots
      × ((ltb 0 i && out_of_order bid tick prev) ≡ false)
      × (quote_levels_loop (i + 1) tick pair bid levels ≡ ok rest)
      × (record { offset = tick; qty_lots = lots } ∷ rest ≡ out)
unfolding quote_levels_loop
level_parts i prev pair bid level levels out h =
    elim (Result-cases (
      quote_units level.price (sub_ℕ (18 + pair.quote_decimals) pair.base_decimals)
        (magnitude pair.price_tick_size) (not bid))) [
          | inr (e, q) ↦ absurd (ground arith)
          | inl (tick, q) ↦
              elim (Result-cases (
                quote_units level.amount (pos pair.base_decimals) (magnitude pair.lot_size)
                  false)) [
                    | inr (e, q2) ↦ absurd (ground arith)
                    | inl (lots, q2) ↦
                        elim (Result-cases (quote_levels_loop (i + 1) tick pair bid levels)) [
                          | inr (e, q3) ↦ absurd (ground arith)
                          | inl (rest, q3) ↦ (
                            tick,
                            lots,
                            rest,
                            q,
                            quote_units-IsCount level.amount (pos pair.base_decimals)
                                (magnitude pair.lot_size) false lots q2,
                            ground arith,
                            q3,
                            ground arith,
                          )
                        ]
                  ]
        ]

-- The highest tick that the loop takes next on the bid side.
abbrev Under : ℕ → ℕ → ℕ → Type 0
Under i prev hi = (i ≡ 0 → hi ≡ max_tick) × (0 < i → hi ≡ prev - 1)

quote_levels_loop-Falls :
    (i prev hi : ℕ) (pair : PairParams) (levels : List PriceLevel) (out : List Level)
    → Under i prev hi
    → quote_levels_loop i prev pair true levels ≡ ok out
    → Falls hi out × (length out ≡ length levels)
unfolding quote_levels_loop
quote_levels_loop-Falls i prev hi pair [] [] u h = (tt, refl)
quote_levels_loop-Falls i prev hi pair [] (l ∷ ls) u h = cc
quote_levels_loop-Falls i prev hi pair (level ∷ levels) out u h =
    let (tick, lots, rest, one, two, order, loop, same) =
      level_parts i prev pair true level levels out h in
    let range =
      quote_units-IsCount level.price (sub_ℕ (18 + pair.quote_decimals) pair.base_decimals)
        (magnitude pair.price_tick_size) false tick one in
    let (more, len) =
      quote_levels_loop-Falls (i + 1) tick (tick - 1) pair levels rest
        ((λ e. omega arith), (λ p. refl)) loop in
    let below : tick ≤ hi = ground arith in
    subst (λ o. Falls hi o × (length o ≡ suc (length levels))) same
      ((below, range, two, more), omega (arith, len))

-- The lowest tick that the loop takes next on the ask side.
abbrev Above : ℕ → ℕ → ℕ → Type 0
Above i prev lo = (i ≡ 0 → lo ≡ 0) × (0 < i → lo ≡ prev + 1)

quote_levels_loop-Climbs :
    (i prev lo : ℕ) (pair : PairParams) (levels : List PriceLevel) (out : List Level)
    → Above i prev lo
    → quote_levels_loop i prev pair false levels ≡ ok out
    → Climbs lo out × (length out ≡ length levels)
unfolding quote_levels_loop
quote_levels_loop-Climbs i prev lo pair [] [] u h = (tt, refl)
quote_levels_loop-Climbs i prev lo pair [] (l ∷ ls) u h = cc
quote_levels_loop-Climbs i prev lo pair (level ∷ levels) out u h =
    let (tick, lots, rest, one, two, order, loop, same) =
      level_parts i prev pair false level levels out h in
    let range =
      quote_units-IsCount level.price (sub_ℕ (18 + pair.quote_decimals) pair.base_decimals)
        (magnitude pair.price_tick_size) true tick one in
    let (more, len) =
      quote_levels_loop-Climbs (i + 1) tick (tick + 1) pair levels rest
        ((λ e. omega arith), (λ p. refl)) loop in
    let over : lo ≤ tick = ground arith in
    subst (λ o. Climbs lo o × (length o ≡ suc (length levels))) same
      ((over, range, two, more), omega (arith, len))

pub below_base-AscendsFrom :
    (base lo hi : ℕ) (ls : List Level)
    → lo + hi ≤ base
    → base ≤ max_tick
    → Falls hi ls
    → AscendsFrom lo (below_base base ls)
unfolding below_base
below_base-AscendsFrom base lo hi [] fit small falls = tt
below_base-AscendsFrom base lo hi (l ∷ ls) fit small (under, tick, lots, more) =
    let offset : (base + 2 ^ 32 - l.offset) % 2 ^ 32 ≡ base - l.offset = omega arith in
    (
      omega arith,
      (omega arith, lots.0, lots.1),
      below_base-AscendsFrom base ((base + 2 ^ 32 - l.offset) % 2 ^ 32 + 1) (l.offset - 1) ls
          (omega arith) small more,
    )

pub above_base-AscendsFrom :
    (base lo low : ℕ) (ls : List Level)
    → base + lo ≤ low
    → base ≤ max_tick
    → Climbs low ls
    → AscendsFrom lo (above_base base ls)
unfolding above_base
above_base-AscendsFrom base lo low [] fit small climbs = tt
above_base-AscendsFrom base lo low (l ∷ ls) fit small (over, tick, lots, more) =
    let offset : (l.offset + 2 ^ 32 - base) % 2 ^ 32 ≡ l.offset - base = omega arith in
    (
      omega arith,
      (omega arith, lots.0, lots.1),
      above_base-AscendsFrom base ((l.offset + 2 ^ 32 - base) % 2 ^ 32 + 1) (l.offset + 1) ls
          (omega arith) small more,
    )

-- A side that quoteLevels returns: at most five levels, in the order of their ticks.
pub quote_levels-Falls :
    (levels : List PriceLevel) (pair : PairParams) (out : List Level)
    → quote_levels levels pair true ≡ ok out
    → Falls max_tick out × (length out ≡ length levels) × (length out ≤ 5)
unfolding quote_levels
quote_levels-Falls levels pair out h =
    let loop : quote_levels_loop 0 0 pair true levels ≡ ok out = ground arith in
    let few : length levels ≤ 5 = ground arith in
    let (falls, len) =
      quote_levels_loop-Falls 0 0 max_tick pair levels out ((λ e. refl), (λ p. omega arith)) loop in
    (falls, len, omega arith)

pub quote_levels-Climbs :
    (levels : List PriceLevel) (pair : PairParams) (out : List Level)
    → quote_levels levels pair false ≡ ok out
    → Climbs 0 out × (length out ≡ length levels) × (length out ≤ 5)
unfolding quote_levels
quote_levels-Climbs levels pair out h =
    let loop : quote_levels_loop 0 0 pair false levels ≡ ok out = ground arith in
    let few : length levels ≤ 5 = ground arith in
    let (climbs, len) =
      quote_levels_loop-Climbs 0 0 0 pair levels out ((λ e. refl), (λ p. omega arith)) loop in
    (climbs, len, omega arith)

-- The first level of a side.
pub quote_levels-first :
    (level : PriceLevel) (levels : List PriceLevel) (pair : PairParams) (bid : Bool) (l : Level)
    (ls : List Level)
    → quote_levels (level ∷ levels) pair bid ≡ ok (l ∷ ls)
    → quote_units level.price
        (sub_ℕ (18 + pair.quote_decimals) pair.base_decimals)
        (magnitude pair.price_tick_size)
        (not bid)
      ≡ ok l.offset
unfolding quote_levels
quote_levels-first level levels pair bid l ls h =
    let loop : quote_levels_loop 0 0 pair bid (level ∷ levels) ≡ ok (l ∷ ls) = ground arith in
    let (tick, lots, rest, one, two, order, more, same) =
      level_parts 0 0 pair bid level levels (l ∷ ls) loop in
    ground arith

pub below_base-last :
    (base hi : ℕ) (ls : List Level)
    → hi ≤ base
    → base ≤ max_tick
    → Falls hi ls
    → (length (below_base base ls) ≡ length ls)
      × ((length (below_base base ls) ≡ 0) ⊎ (last_offset (below_base base ls) < base))
unfolding below_base
below_base-last base hi [] fit small falls = (refl, inl refl)
below_base-last base hi (l ∷ []) fit small (under, tick, lots, more) = (refl, inr (omega arith))
below_base-last base hi (l ∷ m ∷ ls) fit small (under, tick, lots, more) =
    let (len, ends) = below_base-last base (l.offset - 1) (m ∷ ls) (omega arith) small more in
    (omega (arith, len), ground (arith, ends))

pub above_base-last :
    (base low : ℕ) (ls : List Level)
    → base ≤ low
    → base ≤ max_tick
    → Climbs low ls
    → (length (above_base base ls) ≡ length ls)
      × ((length (above_base base ls) ≡ 0) ⊎ (last_offset (above_base base ls) + base ≤ max_tick))
unfolding above_base
above_base-last base low [] fit small climbs = (refl, inl refl)
above_base-last base low (l ∷ []) fit small (over, tick, lots, more) = (refl, inr (omega arith))
above_base-last base low (l ∷ m ∷ ls) fit small (over, tick, lots, more) =
    let (len, ends) = above_base-last base (l.offset + 1) (m ∷ ls) (omega arith) small more in
    (omega (arith, len), ground (arith, ends))
