-- ===== src/Router/Quote/Fill.antt =====
-- One level of the book in pkg/router/quote.go: the rounded price of a purchase is the least that
-- pays for it, and what a level spends and gives out.
use takapu_protocol_sdk.Prelude.{
  ℕ, ◌-◌, ◌*◌, ◌≤◌, ◌<◌, ◌≡◌, refl, arith, Bool, true, false, ◌⊎◌, leb→le, sym, ◌∙◌, leb, le-div,
  div-mul-le, mul_mono,
}
use takapu_protocol_sdk.Router.Quote.{
  LevelFill, price_scale_18, quote_cost, quote_value, base_affordable, buy_level, sell_level,
  fill_level,
}

quote_cost_mono : (a b price : ℕ) → a ≤ b → quote_cost a price ≤ quote_cost b price
unfolding quote_cost
quote_cost_mono a b price h = omega (arith, mul_mono price a b h)

quote_value_mono : (a b price : ℕ) → a ≤ b → quote_value a price ≤ quote_value b price
unfolding quote_value
quote_value_mono a b price h = omega (arith, mul_mono price a b h)

-- What a budget affords, the budget pays for.
quote_cost-base_affordable :
    (budget price : ℕ) → quote_cost (base_affordable budget price) price ≤ budget
unfolding quote_cost base_affordable
quote_cost-base_affordable budget price = omega (arith, div-mul-le price (budget * price_scale_18))

-- And it affords no more.
base_affordable_largest :
    (b budget price : ℕ)
    → 0 < price
    → quote_cost b price ≤ budget
    → b ≤ base_affordable budget price
unfolding quote_cost base_affordable
base_affordable_largest b budget price p h =
    le-div price b (budget * price_scale_18) p (omega arith)

-- What is asked of a purchase from one level.
pub record IsPurchase (depth price budget : ℕ) (f : LevelFill) : Type 0 where
  pub in_budget : f.spent ≤ budget
  pub in_depth : f.got ≤ depth
  pub paid : f.spent ≡ quote_cost f.got price
  pub most : (b : ℕ) → b ≤ depth → quote_cost b price ≤ budget → b ≤ f.got
  pub whole : f.go_on ≡ leb (quote_cost depth price) budget

quote_cost-zero : (price : ℕ) → quote_cost 0 price ≡ 0
unfolding quote_cost
quote_cost-zero price = omega arith

-- At a positive price the purchase from one level stays within the budget and the depth, pays the
-- rounded price of what it takes, and takes the most that the budget pays for; the loop goes on
-- exactly if the budget pays for the whole level.
pub buy_level-IsPurchase :
    (depth price budget : ℕ)
    → 0 < price
    → IsPurchase depth price budget (buy_level depth price budget)
unfolding buy_level
buy_level-IsPurchase depth price budget p =
    let fits = quote_cost-base_affordable budget price in
    let grows = quote_cost_mono depth (base_affordable budget price) price in
    record {
      in_budget = ground (arith, fits, quote_cost-zero price);
      in_depth = ground (arith, fits, grows);
      paid = ground (arith, quote_cost-zero price);
      most = λ b hb hc. ground (arith, base_affordable_largest b budget price p hc);
      whole = ground (arith, fits, grows);
    }

-- A sale to a level: all of the budget or all of the level, at the rounded price.
pub record IsSale (depth price budget : ℕ) (f : LevelFill) : Type 0 where
  pub in_budget : f.spent ≤ budget
  pub in_depth : f.spent ≤ depth
  pub exhausted : (f.spent ≡ budget) ⊎ (f.spent ≡ depth)
  pub paid : f.got ≡ quote_value f.spent price
  pub on : f.go_on ≡ true

pub sell_level-IsSale :
    (depth price budget : ℕ) → IsSale depth price budget (sell_level depth price budget)
unfolding sell_level
sell_level-IsSale depth price budget = ground arith

-- A larger budget gets no less from a level.
pub fill_level_mono :
    (buy : Bool) (depth price a b : ℕ)
    → 0 < price
    → a ≤ b
    → (fill_level buy depth price a).got ≤ (fill_level buy depth price b).got
unfolding fill_level
fill_level_mono true depth price a b p h =
    let small = buy_level-IsPurchase depth price a p in
    let large = buy_level-IsPurchase depth price b p in
    large.most (buy_level depth price a).got small.in_depth
      (omega (arith, small.in_budget, small.paid))
fill_level_mono false depth price a b p h = sell_mono
  where
    sell_mono : (sell_level depth price a).got ≤ (sell_level depth price b).got
    sell_mono =
        unfold sell_level in
        ground (
          arith,
          quote_value_mono a b price h,
          quote_value_mono a depth price,
          quote_value_mono depth depth price,
        )

buy_level_whole :
    (depth price budget : ℕ)
    → quote_cost depth price ≤ budget
    → buy_level depth price budget
      ≡ record { spent = quote_cost depth price; got = depth; go_on = true }
unfolding buy_level
buy_level_whole depth price budget h = ground arith

-- Where the smaller budget carries the loop on, so does the larger one, with no less left over.
pub fill_level_go_on :
    (buy : Bool) (depth price a b : ℕ)
    → 0 < price
    → a ≤ b
    → (fill_level buy depth price a).go_on ≡ true
    → ((fill_level buy depth price b).go_on ≡ true)
      × (a - (fill_level buy depth price a).spent ≤ b - (fill_level buy depth price b).spent)
unfolding fill_level
fill_level_go_on true depth price a b p h g =
    let whole = (buy_level-IsPurchase depth price a p).whole in
    let fits : quote_cost depth price ≤ a = leb→le _ _ (sym whole ∙ g) in
    rw (buy_level_whole depth price a fits, buy_level_whole depth price b (omega arith))
      (refl, omega arith)
fill_level_go_on false depth price a b p h g = unfold sell_level in (refl, ground arith)

pub fill_level_in_budget :
    (buy : Bool) (depth price budget : ℕ)
    → 0 < price
    → (fill_level buy depth price budget).spent ≤ budget
unfolding fill_level
fill_level_in_budget true depth price budget p =
    (buy_level-IsPurchase depth price budget p).in_budget
fill_level_in_budget false depth price budget p = (sell_level-IsSale depth price budget).in_budget
