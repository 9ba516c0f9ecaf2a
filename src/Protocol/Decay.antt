-- ===== src/Protocol/Decay.antt =====
-- pkg/protocol/decay.go: GlobalDecayConfig, DecayPPM, ApplyDecay; and uint256 of validation.go.
pub mod Laws
use takapu_protocol_sdk.Prelude.{
  ℕ, ◌+◌, ◌-◌, ◌*◌, ◌/◌, Bool, true, false, ◌||◌, ltb, leb, ◌==◌, if◌then◌else◌, BigInt, magnitude,
  out_of_range, Result, ok, err, fail_if, ◌>>=◌, ◌>>◌,
}

-- `PPMDenominator`
abbrev pub ppm_denominator : ℕ
ppm_denominator = 1_000_000

pub data DecayError : Type 0 where
  invalid_decay_config future_frame expired_frame : DecayError
  gross_not_uint256 decay_not_below_denominator : DecayError

pub record GlobalDecayConfig : Type 0 where
  pub decay_start_offset_seconds : ℕ
  pub decay_end_offset_seconds : ℕ
  pub max_age : ℕ
  pub max_decay_ppm : ℕ

-- `Validate`
unfoldable pub validate : GlobalDecayConfig → Result DecayError (Unit {0})
validate c =
    fail_if
      (c.max_age == 0
        || leb c.decay_end_offset_seconds c.decay_start_offset_seconds
        || leb c.max_age c.decay_end_offset_seconds
        || leb ppm_denominator c.max_decay_ppm)
      invalid_decay_config

-- The piecewise linear decay at an age. The products and differences fit uint64, and the quotient
-- is at most `MaxDecayPpm`, so that no conversion loses a bit.
unfoldable pub decay_at_age : ℕ → GlobalDecayConfig → ℕ
decay_at_age age cfg =
    let start = cfg.decay_start_offset_seconds in
    let end = cfg.decay_end_offset_seconds in
    if leb age start
    then 0
    else if leb end age
    then cfg.max_decay_ppm
    else cfg.max_decay_ppm * (age - start) / (end - start)

-- `DecayPPM`
unfoldable pub decay_ppm : ℕ → ℕ → GlobalDecayConfig → Result DecayError ℕ
unfolding validate decay_at_age
decay_ppm updated_at at cfg = do
  validate cfg
  fail_if (ltb at updated_at) future_frame
  let age = at - updated_at
  fail_if (leb cfg.max_age age) expired_frame
  ok (decay_at_age age cfg)

-- `ApplyDecay`: the amount deducted and the amount that remains.
unfoldable pub apply_decay : BigInt → ℕ → Result DecayError (ℕ × ℕ)
apply_decay gross_amount_out decay_ppm = do
  fail_if (out_of_range 256 false gross_amount_out) gross_not_uint256
  fail_if (leb ppm_denominator decay_ppm) decay_not_below_denominator
  let decay_amount = magnitude gross_amount_out * decay_ppm / ppm_denominator
  ok (decay_amount, magnitude gross_amount_out - decay_amount)
