-- ===== src/Protocol/Decay/Laws.antt =====
-- The decay curve of pkg/protocol/decay.go: when it is defined, its bounds, and that it grows.
use takapu_protocol_sdk.Prelude.{
  ℕ, ◌+◌, ◌-◌, ◌*◌, ◌/◌, ◌≤◌, ◌<◌, ◌≡◌, arith, ◌↔◌, ◌⊎◌, ok, BigInt, magnitude, div_mono, share-le,
}
use takapu_protocol_sdk.Protocol.Decay.{
  GlobalDecayConfig, ppm_denominator, decay_at_age, decay_ppm, apply_decay,
}

-- The constraints that the contract puts on its configuration.
pub record IsDecayConfig (c : GlobalDecayConfig) : Type 0 where
  pub ordered : c.decay_start_offset_seconds < c.decay_end_offset_seconds
  pub ends : c.decay_end_offset_seconds < c.max_age
  pub below_all : c.max_decay_ppm < ppm_denominator

-- DecayPPM returns a value exactly if the configuration meets the contract's constraints, the frame
-- is not from the future and its age is below the maximum.
pub decay_ppm_iff :
    (u t : ℕ) (c : GlobalDecayConfig)
    → ((p : ℕ) × (decay_ppm u t c ≡ ok p)) ↔ (IsDecayConfig c × (u ≤ t) × (t < u + c.max_age))
unfolding decay_ppm
decay_ppm_iff u t c = (λ h. ground (arith, h.1), λ h. (decay_at_age (t - u) c, ground arith))

decay_at_age-le : (a : ℕ) (c : GlobalDecayConfig) → decay_at_age a c ≤ c.max_decay_ppm
unfolding decay_at_age
decay_at_age-le a c = ground (
  arith,
  share-le c.max_decay_ppm (a - c.decay_start_offset_seconds)
      (c.decay_end_offset_seconds - c.decay_start_offset_seconds),
)

decay_at_age_mono : (a b : ℕ) (c : GlobalDecayConfig) → a ≤ b → decay_at_age a c ≤ decay_at_age b c
unfolding decay_at_age
decay_at_age_mono a b c h =
    let slope = λ (x : ℕ). c.max_decay_ppm * (x - c.decay_start_offset_seconds) in
    ground (
      arith,
      share-le c.max_decay_ppm (a - c.decay_start_offset_seconds)
          (c.decay_end_offset_seconds - c.decay_start_offset_seconds),
      div_mono (c.decay_end_offset_seconds - c.decay_start_offset_seconds)
          (c.max_decay_ppm * (a - c.decay_start_offset_seconds))
          (c.max_decay_ppm * (b - c.decay_start_offset_seconds)),
      slope_mono c.max_decay_ppm (a - c.decay_start_offset_seconds)
          (b - c.decay_start_offset_seconds),
    )
  where
    slope_mono : (m x y : ℕ) → x ≤ y → m * x ≤ m * y
    slope_mono m x y p = grind arith

decay_ppm_lem :
    (u t : ℕ) (c : GlobalDecayConfig) (p : ℕ) → decay_ppm u t c ≡ ok p → p ≡ decay_at_age (t - u) c
unfolding decay_ppm
decay_ppm_lem u t c p h = ground arith

-- For one frame and configuration, a later evaluation never yields a smaller decay, and every
-- decay is at most the configured maximum, which is below 1,000,000.
pub decay_ppm_mono :
    (u s t : ℕ) (c : GlobalDecayConfig) (p q : ℕ)
    → s ≤ t
    → decay_ppm u s c ≡ ok p
    → decay_ppm u t c ≡ ok q
    → (p ≤ q) × (q ≤ c.max_decay_ppm) × (c.max_decay_ppm < ppm_denominator)
decay_ppm_mono u s t c p q h hp hq =
    let (config, past, fresh) = (decay_ppm_iff u t c).0 (q, hq) in
    omega (
      arith,
      decay_ppm_lem u s c p hp,
      decay_ppm_lem u t c q hq,
      decay_at_age_mono (s - u) (t - u) c (omega arith),
      decay_at_age-le (t - u) c,
      config.below_all,
    )

-- The decay is zero up to the start of the decay, and the configured maximum from its end on.
pub decay_ppm_ends :
    (u t : ℕ) (c : GlobalDecayConfig) (p : ℕ)
    → decay_ppm u t c ≡ ok p
    → (t ≤ u + c.decay_start_offset_seconds → p ≡ 0)
      × (u + c.decay_end_offset_seconds ≤ t → p ≡ c.max_decay_ppm)
unfolding decay_at_age
decay_ppm_ends u t c p h =
    let e = decay_ppm_lem u t c p h in
    let (config, past, fresh) = (decay_ppm_iff u t c).0 (p, h) in
    (λ early. ground arith, λ late. ground arith)

share_below : (m decay : ℕ) → decay < 1_000_000 → m * decay ≤ m * 999_999
share_below m decay h = grind arith

apply_decay_parts :
    (gross : BigInt) (decay d g : ℕ)
    → apply_decay gross decay ≡ ok (d, g)
    → (decay < ppm_denominator)
      × (d ≡ magnitude gross * decay / ppm_denominator)
      × (g ≡ magnitude gross - d)
unfolding apply_decay
apply_decay_parts gross decay d g h = ground arith

-- ApplyDecay splits a gross amount: the two results add up to it, the deduction is the floor of the
-- share, and something remains unless the gross amount is zero.
pub apply_decay_splits :
    (gross : BigInt) (decay d g : ℕ)
    → apply_decay gross decay ≡ ok (d, g)
    → (d + g ≡ magnitude gross)
      × (d * ppm_denominator ≤ magnitude gross * decay)
      × (magnitude gross * decay < (d + 1) * ppm_denominator)
      × (0 < g ⊎ magnitude gross ≡ 0)
apply_decay_splits gross decay d g h =
    let (below, ed, eg) = apply_decay_parts gross decay d g h in
    omega (arith, share_below (magnitude gross) decay)
