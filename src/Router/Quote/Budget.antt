-- ===== src/Router/Quote/Budget.antt =====
-- matchQuote of pkg/router/quote.go as a whole: it never spends more than the caller offers, every
-- fill lies within its level, and a larger offer never yields less.
use takapu_protocol_sdk.Prelude.{
  ℕ, ◌+◌, ◌-◌, ◌≤◌, ◌<◌, ◌≡◌, arith, Bool, true, false, List, [], ◌∷◌, Result, ok, Result-cases,
  inl, inr, ◌⊎◌, Bool-cases, ◌==◌, ℤ, minus, length, ◌++◌,
}
use takapu_protocol_sdk.Decimal.Parse.{quote_decimal, cut_dot, shift_digits}
use takapu_protocol_sdk.Frame.Types.{Address, PairParams}
use takapu_protocol_sdk.Wire.{PriceLevel}
use takapu_protocol_sdk.Router.Quote.{
  QuoteConfig, QuoteError, quote_ppm, LevelFill, fill_level, price_scale, amount_scale, match_level,
  match_loop, match_quote, leg_budget_with_input_fee, apply_output_fee,
}
use takapu_protocol_sdk.Router.Quote.Fees.{leg_budget_with_input_fee_mono, apply_output_fee_mono}
use takapu_protocol_sdk.Router.Quote.Fill.{fill_level_mono, fill_level_go_on}

-- A level as the loop reads it.
abbrev pub Reads : PairParams → PriceLevel → ℕ → ℕ → Type 0
Reads pair level price depth =
    (quote_decimal level.price (price_scale pair) ≡ ok price)
    × (quote_decimal level.amount (amount_scale pair) ≡ ok depth)

pub read_positive : (value : List ℕ) (scale : ℤ) {n : ℕ} → quote_decimal value scale ≡ ok n → 0 < n
unfolding quote_decimal
read_positive value scale h =
    elim (Result-cases (
      shift_digits ((cut_dot value).before ++ (cut_dot value).after)
        (minus scale (length (cut_dot value).after)))) [
          | inl (t, e) ↦ ground arith
          | inr (x, e) ↦ absurd (ground arith)
        ]

-- How a body of the loop ends well.
abbrev pub Ends : LevelFill → ℕ → ℕ → ℕ → (ℕ → ℕ → Result QuoteError ℕ) → Type 0
Ends fill budget out r next =
    ((fill.go_on ≡ false) × (r ≡ out + fill.got))
    ⊎ ((fill.go_on ≡ true) × (next (budget - fill.spent) (out + fill.got) ≡ ok r))

match_level-Ends :
    (buy : Bool) (pair : PairParams) (i : ℕ) (level : PriceLevel) (budget out r : ℕ)
    (next : ℕ → ℕ → Result QuoteError ℕ) (price depth : ℕ)
    → Reads pair level price depth
    → match_level buy pair i level budget out next ≡ ok r
    → Ends (fill_level buy depth price budget) budget out r next
unfolding match_level
match_level-Ends buy pair i level budget out r next price depth reads h =
    elim (Bool-cases (fill_level buy depth price budget).go_on) [
      | inl on ↦ inr (on, ground arith)
      | inr off ↦ inl (off, ground arith)
    ]

-- The cases of a body of the loop that ends well.
pub match_level-inv :
    (buy : Bool) (pair : PairParams) (i : ℕ) (level : PriceLevel) (budget out r : ℕ)
    (next : ℕ → ℕ → Result QuoteError ℕ)
    → match_level buy pair i level budget out next ≡ ok r
    → (price : ℕ) × (depth : ℕ) × Reads pair level price depth
      × Ends (fill_level buy depth price budget) budget out r next
unfolding match_level
match_level-inv buy pair i level budget out r next h =
    elim (Result-cases (quote_decimal level.price (price_scale pair))) [
      | inl (price, p) ↦ elim (Result-cases (quote_decimal level.amount (amount_scale pair))) [
        | inl (depth, q) ↦ (
          price,
          depth,
          (p, q),
          unfold match_level in
              match_level-Ends buy pair i level budget out r next price depth (p, q) h,
        )
        | inr (x, q) ↦ absurd (ground arith)
      ]
      | inr (x, p) ↦ absurd (ground arith)
    ]

pub match_quote_parts :
    (levels : List PriceLevel) (token_in token_out : Address) (a : ℕ) (cfg : QuoteConfig) (x : ℕ)
    → match_quote levels token_in token_out a cfg ≡ ok x
    → (out : ℕ) × (match_loop
          (token_in == cfg.pair.quote_token)
          cfg.pair
          0
          levels
          (leg_budget_with_input_fee a cfg token_in)
          0
        ≡ ok out)
      × (apply_output_fee out cfg token_out ≡ ok x)
unfolding match_quote
match_quote_parts levels token_in token_out a cfg x h =
    elim (Result-cases (
      match_loop (token_in == cfg.pair.quote_token) cfg.pair 0 levels
        (leg_budget_with_input_fee a cfg token_in) 0)) [
          | inl (out, e) ↦ (out, e, ground arith)
          | inr (z, e) ↦ absurd (ground arith)
        ]

-- The loop never gives back what it has.
match_loop-ge :
    (buy : Bool) (pair : PairParams) (i : ℕ) (levels : List PriceLevel) (budget out r : ℕ)
    → match_loop buy pair i levels budget out ≡ ok r
    → out ≤ r
unfolding match_loop
match_loop-ge buy pair i [] budget out r h = ground arith
match_loop-ge buy pair i (level ∷ levels) budget out r h = elim (Bool-cases (budget == 0)) [
  | inl spent ↦ ground arith
  | inr more ↦
      let (price, depth, reads, ends) =
        match_level-inv buy pair i level budget out r
          (λ b o. match_loop buy pair (i + 1) levels b o) (rw more at h) in
      elim ends [
        | inl (off, e) ↦ omega arith
        | inr (on, rest) ↦ let ih = match_loop-ge buy pair (i + 1) levels _ _ r rest in omega arith
      ]
]

-- Two ends of one level, for a smaller and a larger budget.
Ends-mono :
    (buy : Bool) (price depth a b out out' r r' : ℕ) (next : ℕ → ℕ → Result QuoteError ℕ)
    → 0 < price
    → a ≤ b
    → out ≤ out'
    → ((x y o p : ℕ) → x ≤ y → o ≤ p → next x o ≡ ok r → next y p ≡ ok r' → r ≤ r')
    → ((x o : ℕ) → next x o ≡ ok r' → o ≤ r')
    → Ends (fill_level buy depth price a) a out r next
    → Ends (fill_level buy depth price b) b out' r' next
    → r ≤ r'
Ends-mono buy price depth a b out out' r r' next p hab ho mono ge (inl (off, e)) (inl (off', e')) =
    omega (arith, fill_level_mono buy depth price a b p hab)
Ends-mono buy price depth a b out out' r r' next p hab ho mono ge (inl (off, e)) (inr (on', e')) =
    omega (arith, fill_level_mono buy depth price a b p hab, ge _ _ e')
Ends-mono buy price depth a b out out' r r' next p hab ho mono ge (inr (on, e)) (inl (off', e')) =
    let (on', _) = fill_level_go_on buy depth price a b p hab on in cc (on', off')
Ends-mono buy price depth a b out out' r r' next p hab ho mono ge (inr (on, e)) (inr (on', e')) =
    let (_, left) = fill_level_go_on buy depth price a b p hab on in
    mono _ _ _ _ left (omega (arith, fill_level_mono buy depth price a b p hab)) e e'

match_loop_mono :
    (buy : Bool) (pair : PairParams) (i : ℕ) (levels : List PriceLevel) (a b out out' r r' : ℕ)
    → a ≤ b
    → out ≤ out'
    → match_loop buy pair i levels a out ≡ ok r
    → match_loop buy pair i levels b out' ≡ ok r'
    → r ≤ r'
unfolding match_loop
match_loop_mono buy pair i [] a b out out' r r' hab hout h h' = ground arith
match_loop_mono buy pair i (level ∷ levels) a b out out' r r' hab hout h h' =
    elim (Bool-cases (a == 0)) [
      | inl spent ↦
          let grows = match_loop-ge buy pair i (level ∷ levels) b out' r' h' in
          ground (arith, grows)
      | inr more ↦
          let next = λ (x o : ℕ). match_loop buy pair (i + 1) levels x o in
          let (price, depth, reads, ends) =
            match_level-inv buy pair i level a out r next (rw more at h) in
          let stays : (b == 0) ≡ false = ground arith in
          Ends-mono buy price depth a b out out' r r' next (read_positive _ _ reads.0) hab hout
            (λ x y o p hx ho hr hr'.
              match_loop_mono buy pair (i + 1) levels x y o p r r' hx ho hr hr')
            (λ x o e. match_loop-ge buy pair (i + 1) levels x o r' e) ends
            (match_level-Ends buy pair i level b out' r' next price depth reads (rw stays at h'))
    ]

-- On one side of the book, at one fee rate below 1,000,000, offering more never yields less: if
-- matchQuote returns an output for two amounts, the larger amount has at least the output of the
-- smaller one.
pub match_quote_mono :
    (levels : List PriceLevel) (token_in token_out : Address) (a b : ℕ) (cfg : QuoteConfig)
    (x y : ℕ)
    → cfg.fee_rate_ppm < quote_ppm
    → a ≤ b
    → match_quote levels token_in token_out a cfg ≡ ok x
    → match_quote levels token_in token_out b cfg ≡ ok y
    → x ≤ y
match_quote_mono levels token_in token_out a b cfg x y rate h hx hy =
    let (p, ep, fx) = match_quote_parts levels token_in token_out a cfg x hx in
    let (q, eq, fy) = match_quote_parts levels token_in token_out b cfg y hy in
    apply_output_fee_mono p q cfg token_out rate
      (match_loop_mono _ cfg.pair 0 levels _ _ 0 0 p q
        (leg_budget_with_input_fee_mono a b cfg token_in h) (omega arith) ep eq)
      fx fy
