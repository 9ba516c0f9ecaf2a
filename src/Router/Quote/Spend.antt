-- ===== src/Router/Quote/Spend.antt =====
-- What matchQuote of pkg/router/quote.go fills: one fill at most for each level, in book order, each
-- within its level and at its rounded price, and all of them within the amount that was offered.
use takapu_protocol_sdk.Prelude.{
  ℕ, ◌+◌, ◌≤◌, ◌<◌, ◌≡◌, refl, sym, arith, Bool, true, false, List, [], ◌∷◌, ok, inl, inr,
  Bool-cases, ◌==◌,
}
use takapu_protocol_sdk.Frame.Types.{Address, PairParams}
use takapu_protocol_sdk.Wire.{PriceLevel}
use takapu_protocol_sdk.Router.Quote.{
  QuoteConfig, quote_cost, quote_value, fill_level, match_loop, match_quote, buy_level, sell_level,
  quote_ppm,
}
use takapu_protocol_sdk.Router.Quote.Fees.{input_fee, leg_budget_fits, apply_output_fee-eq-ok}
use mathlib.Core.Path.{subst}
use takapu_protocol_sdk.Router.Quote.Fill.{buy_level-IsPurchase, sell_level-IsSale}
use takapu_protocol_sdk.Router.Quote.Budget.{
  Reads, read_positive, match_level-inv, match_quote_parts,
}

-- The base amount taken from a level at its price.
pub record Fill : Type 0 where
  pub price : ℕ
  pub depth : ℕ
  pub take : ℕ

-- What a fill costs the caller and what it gives.
abbrev pub outlay : Bool → Fill → ℕ
outlay true f = quote_cost f.take f.price
outlay false f = f.take

abbrev pub proceeds : Bool → Fill → ℕ
proceeds true f = f.take
proceeds false f = quote_value f.take f.price

abbrev pub total : (Fill → ℕ) → List Fill → ℕ
total g [] = 0
total g (f ∷ fs) = g f + total g fs

-- The fills stand, in order, for the first levels of the side, each within the level's depth.
abbrev pub Fits : PairParams → List PriceLevel → List Fill → Type 0
Fits pair levels [] = Unit {0}
Fits pair [] (f ∷ fs) = ⊥
Fits pair (level ∷ levels) (f ∷ fs) =
    Reads pair level f.price f.depth × (f.take ≤ f.depth) × Fits pair levels fs

-- What one level takes.
fill_of : Bool → ℕ → ℕ → ℕ → Fill
fill_of true price depth budget = record {
  price = price;
  depth = depth;
  take = (buy_level depth price budget).got;
}
fill_of false price depth budget = record {
  price = price;
  depth = depth;
  take = (sell_level depth price budget).spent;
}

fill_of_lem :
    (buy : Bool) (price depth budget : ℕ)
    → 0 < price
    → let f = fill_of buy price depth budget in
      let l = fill_level buy depth price budget in
      (f.price ≡ price)
      × (f.depth ≡ depth)
      × (f.take ≤ depth)
      × (outlay buy f ≡ l.spent)
      × (proceeds buy f ≡ l.got)
      × (l.spent ≤ budget)
unfolding fill_of fill_level
fill_of_lem true price depth budget p =
    let b = buy_level-IsPurchase depth price budget p in
    (refl, refl, b.in_depth, sym b.paid, refl, b.in_budget)
fill_of_lem false price depth budget p =
    let s = sell_level-IsSale depth price budget in
    (refl, refl, s.in_depth, refl, sym s.paid, s.in_budget)

match_loop-Fits :
    (buy : Bool) (pair : PairParams) (i : ℕ) (levels : List PriceLevel) (budget out r : ℕ)
    → match_loop buy pair i levels budget out ≡ ok r
    → (fs : List Fill) × Fits pair levels fs
      × (total (outlay buy) fs ≤ budget)
      × (r ≡ out + total (proceeds buy) fs)
unfolding match_loop
match_loop-Fits buy pair i [] budget out r h = ([], tt, omega arith, ground arith)
match_loop-Fits buy pair i (level ∷ levels) budget out r h = elim (Bool-cases (budget == 0)) [
  | inl spent ↦ ([], tt, omega arith, ground arith)
  | inr more ↦
      let (price, depth, reads, ends) =
        match_level-inv buy pair i level budget out r
          (λ b o. match_loop buy pair (i + 1) levels b o) (rw more at h) in
      let f = fill_of buy price depth budget in
      let (ep, ed, within, cost, gain, fits) =
        fill_of_lem buy price depth budget (read_positive _ _ reads.0) in
      elim ends [
        | inl (off, e) ↦
            (f ∷ [], ((rw ep reads.0, rw ed reads.1), rw ed within, tt), omega arith, omega arith)
        | inr (on, rest) ↦
            let (fs, fit, spent', gained) = match_loop-Fits buy pair (i + 1) levels _ _ r rest in
            (f ∷ fs, ((rw ep reads.0, rw ed reads.1), rw ed within, fit), omega arith, omega arith)
      ]
]

-- A quote is backed by fills: for an output that matchQuote returns there are base amounts, one for
-- each of the first levels of the side in book order and none above the level's depth, whose total
-- outlay and the input-side fee on it stay within the amount offered, and whose total proceeds less
-- the output-side fee are the output, which is positive. A purchase pays the ceiling of its price
-- and a sale receives the floor. The fee rate is below 1,000,000.
pub match_quote-Fits :
    (levels : List PriceLevel) (token_in token_out : Address) (amount_in : ℕ) (cfg : QuoteConfig)
    (net : ℕ)
    → cfg.fee_rate_ppm < quote_ppm
    → match_quote levels token_in token_out amount_in cfg ≡ ok net
    → let buy = token_in == cfg.pair.quote_token in
      (fs : List Fill) × Fits cfg.pair levels fs
      × (total (outlay buy) fs + input_fee cfg token_in (total (outlay buy) fs) ≤ amount_in)
      × (net + input_fee cfg token_out (total (proceeds buy) fs) ≡ total (proceeds buy) fs)
      × (0 < net)
match_quote-Fits levels token_in token_out amount_in cfg net rate h =
    let (gross, loop, fee) = match_quote_parts levels token_in token_out amount_in cfg net h in
    let (fs, fit, spent, gained) = match_loop-Fits _ cfg.pair 0 levels _ 0 gross loop in
    let (back, positive) = apply_output_fee-eq-ok gross cfg token_out net rate fee in
    let same : gross ≡ total (proceeds (token_in == cfg.pair.quote_token)) fs =
      omega (arith, gained) in
    (
      fs,
      fit,
      leg_budget_fits amount_in cfg token_in _ spent,
      subst (λ g. net + input_fee cfg token_out g ≡ g) same back,
      positive,
    )
