-- ===== src/Router/Quote/Fees.antt =====
-- The fees of pkg/router/quote.go: the input-side budget is the largest leg that fits, and the
-- output-side deduction leaves a positive net amount.
use takapu_protocol_sdk.Prelude.{
  ℕ, ◌+◌, ◌-◌, ◌*◌, ◌/◌, ◌≤◌, ◌<◌, ◌≡◌, arith, ◌↔◌, ok, div_mono, le-div, div-mul-le, mul_mono, not,
  ◌||◌, ◌==◌, if◌then◌else◌, ap,
}
use takapu_protocol_sdk.Frame.Types.{Address}
use takapu_protocol_sdk.Router.Quote.{
  QuoteConfig, quote_ppm, quote_deduction, leg_budget_with_input_fee, apply_output_fee,
}

-- The closed form of the leg budget, for a rate below 1,000,000.
leg_fits :
    (amount rate b : ℕ)
    → b ≤ ((amount + 1) * quote_ppm - 1) / (quote_ppm + rate)
    → b + quote_deduction b rate ≤ amount
unfolding quote_deduction
leg_fits amount rate b h =
    let fits = div-mul-le (quote_ppm + rate) ((amount + 1) * quote_ppm - 1) in
    omega (arith, mul_mono (quote_ppm + rate) b _ h)

leg_largest :
    (amount rate b : ℕ)
    → b + quote_deduction b rate ≤ amount
    → b ≤ ((amount + 1) * quote_ppm - 1) / (quote_ppm + rate)
unfolding quote_deduction
leg_largest amount rate b h =
    le-div (quote_ppm + rate) b ((amount + 1) * quote_ppm - 1) (omega arith) (omega arith)

-- The fee that the input side adds to a leg.
abbrev pub input_fee : QuoteConfig → Address → ℕ → ℕ
input_fee cfg token_in leg =
    if cfg.fee_rate_ppm == 0 || not (cfg.fee_token == token_in)
    then 0
    else quote_deduction leg cfg.fee_rate_ppm

pub leg_budget_fits :
    (amount : ℕ) (cfg : QuoteConfig) (token_in : Address) (leg : ℕ)
    → leg ≤ leg_budget_with_input_fee amount cfg token_in
    → leg + input_fee cfg token_in leg ≤ amount
unfolding leg_budget_with_input_fee
leg_budget_fits amount cfg token_in leg h = ground (arith, leg_fits amount cfg.fee_rate_ppm leg)

leg_budget_largest :
    (amount : ℕ) (cfg : QuoteConfig) (token_in : Address) (leg : ℕ)
    → leg + input_fee cfg token_in leg ≤ amount
    → leg ≤ leg_budget_with_input_fee amount cfg token_in
unfolding leg_budget_with_input_fee
leg_budget_largest amount cfg token_in leg h =
    ground (arith, leg_largest amount cfg.fee_rate_ppm leg)

-- The legs that fit the amount offered together with the input-side fee on them are exactly those
-- up to what legBudgetWithInputFee returns, which is so the largest one.
pub leg_budget_with_input_fee_largest :
    (amount : ℕ) (cfg : QuoteConfig) (token_in : Address) (leg : ℕ)
    → (leg + input_fee cfg token_in leg ≤ amount)
      ↔ (leg ≤ leg_budget_with_input_fee amount cfg token_in)
leg_budget_with_input_fee_largest amount cfg token_in leg =
    (leg_budget_largest amount cfg token_in leg, leg_budget_fits amount cfg token_in leg)

pub leg_budget_with_input_fee_mono :
    (a b : ℕ) (cfg : QuoteConfig) (token_in : Address)
    → a ≤ b
    → leg_budget_with_input_fee a cfg token_in ≤ leg_budget_with_input_fee b cfg token_in
unfolding leg_budget_with_input_fee
leg_budget_with_input_fee_mono a b cfg token_in h = ground (
  arith,
  div_mono (quote_ppm + cfg.fee_rate_ppm) ((a + 1) * quote_ppm - 1) ((b + 1) * quote_ppm - 1),
)

share_below : (m rate : ℕ) → rate < 1_000_000 → m * rate ≤ m * 999_999
share_below m rate h = grind arith

-- The net output grows with the gross output.
net_mono :
    (a b rate : ℕ)
    → rate < quote_ppm
    → a ≤ b
    → a - quote_deduction a rate ≤ b - quote_deduction b rate
unfolding quote_deduction
net_mono a b rate h p =
    omega (arith, ap (λ (t : ℕ). t * rate) split, share_below (b - a) rate h, share_below a rate h)
  where
    split : b ≡ a + (b - a)
    split = omega arith

pub apply_output_fee_mono :
    (a b : ℕ) (cfg : QuoteConfig) (token_out : Address) {x y : ℕ}
    → cfg.fee_rate_ppm < quote_ppm
    → a ≤ b
    → apply_output_fee a cfg token_out ≡ ok x
    → apply_output_fee b cfg token_out ≡ ok y
    → x ≤ y
unfolding apply_output_fee
apply_output_fee_mono a b cfg token_out h p ex ey =
    ground (arith, net_mono a b cfg.fee_rate_ppm h p)

deduction_below :
    (gross rate : ℕ) → rate < quote_ppm → 0 < gross → quote_deduction gross rate < gross
unfolding quote_deduction
deduction_below gross rate h p = omega (arith, share_below gross rate h)

-- At a rate below 1,000,000 a positive gross output leaves a positive net one, which
-- applyOutputFee returns: the gross output less the output-side fee.
pub apply_output_fee_positive :
    (gross : ℕ) (cfg : QuoteConfig) (token_out : Address)
    → cfg.fee_rate_ppm < quote_ppm
    → 0 < gross
    → (apply_output_fee gross cfg token_out ≡ ok (gross - input_fee cfg token_out gross))
      × (input_fee cfg token_out gross < gross)
unfolding apply_output_fee
apply_output_fee_positive gross cfg token_out h positive = (
  ground (arith, deduction_below gross cfg.fee_rate_ppm h),
  ground (arith, deduction_below gross cfg.fee_rate_ppm h positive),
)

pub apply_output_fee-eq-ok :
    (gross : ℕ) (cfg : QuoteConfig) (token_out : Address) (net : ℕ)
    → cfg.fee_rate_ppm < quote_ppm
    → apply_output_fee gross cfg token_out ≡ ok net
    → (net + input_fee cfg token_out gross ≡ gross) × (0 < net)
unfolding apply_output_fee
apply_output_fee-eq-ok gross cfg token_out net h e =
    ground (arith, deduction_below gross cfg.fee_rate_ppm h)

pub input_fee_mono :
    (cfg : QuoteConfig) (token_in : Address) (a b : ℕ)
    → a ≤ b
    → input_fee cfg token_in a ≤ input_fee cfg token_in b
unfolding quote_deduction
input_fee_mono cfg token_in a b h = ground (
  arith,
  div_mono quote_ppm (a * cfg.fee_rate_ppm) (b * cfg.fee_rate_ppm),
  mul_mono cfg.fee_rate_ppm a b h,
)
