-- ===== src/Protocol/Read/Pairs.antt =====
-- The pairs that PairConfig and EffectivePairConfig of pkg/protocol/read.go return.
use takapu_protocol_sdk.Prelude.{
  none, some, ℕ, ◌<◌, ◌^◌, ◌≡◌, ◌≢◌, ◌⊎◌, Bool, List, [], ◌∷◌, BigInt, ℤ, pos,
}
use takapu_protocol_sdk.Protocol.Decay.{ppm_denominator}
use takapu_protocol_sdk.Protocol.Errors.{Value, address, big, bool}
use takapu_protocol_sdk.Protocol.Client.{Client}
use takapu_protocol_sdk.Protocol.Read.{PairConfig}

-- A sound pair, active or not: two tokens, its steps, and a fee in one of the tokens or none.
pub record IsPair (cfg : PairConfig) : Type 0 where
  pub base : 0 < cfg.base_token
  pub quote : 0 < cfg.quote_token
  pub two_tokens : cfg.base_token ≢ cfg.quote_token
  pub tick : (n : ℕ) × (cfg.price_tick_size ≡ pos n) × (0 < n) × (n < 2 ^ 128)
  pub lot : (n : ℕ) × (cfg.lot_size ≡ pos n) × (0 < n) × (n < 2 ^ 128)
  pub rate : cfg.fee_rate < ppm_denominator
  pub fee :
      ((cfg.fee_rate ≡ 0) × (cfg.fee_token ≡ 0))
      ⊎ ((0 < cfg.fee_rate)
          × ((cfg.fee_token ≡ cfg.base_token) ⊎ (cfg.fee_token ≡ cfg.quote_token)))

-- The values from which the contract's answer gives the pair.
abbrev pub returned : PairConfig → ℤ → List Value
returned cfg rate =
    address cfg.base_token
    ∷ address cfg.quote_token
    ∷ big cfg.price_tick_size
    ∷ big cfg.lot_size
    ∷ bool cfg.active
    ∷ address cfg.fee_token
    ∷ big rate
    ∷ []

-- The one block of the reads: the given one, or the latest of the node.
abbrev pub IsBlock : Client → BigInt → BigInt → Type 0
IsBlock client block number =
    (n : ℤ) × (number ≡ some n)
    × ((block ≡ some n)
        ⊎ ((block ≡ none) × ((m : ℕ) × (client.rpc.block_number ≡ some m) × (n ≡ pos m))))
