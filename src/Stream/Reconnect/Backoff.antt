-- ===== src/Stream/Reconnect/Backoff.antt =====
-- The delays of the inner loop of run in internal/reconnect.go.
use takapu_protocol_sdk.Prelude.{
  ℕ, zero, suc, ◌*◌, ◌^◌, ◌≤◌, ◌≡◌, ◌∙◌, ap, arith, true, false, ltb, if◌then◌else◌, List, ◌∷◌,
  ◌++◌, replicate, Bool-cases, mul_mono, sym, inl, inr, some,
}
use native.Mathlib.Nat.{pow-suc}
use takapu_protocol_sdk.Stream.Types.{StreamError}
use takapu_protocol_sdk.Stream.Reconnect.{terminal_error, next_delay, Attempt, retry}

-- The smaller of two delays.
abbrev pub capped : ℕ → ℕ → ℕ
capped longest delay = if ltb longest delay then longest else delay

next_delay-capped :
    (longest delay : ℕ) → delay ≤ longest → next_delay longest delay ≡ capped longest (delay * 2)
unfolding next_delay
next_delay-capped longest delay h = ground arith

-- A dial that failed with an error that is not terminal, in time.
abbrev pub failed : StreamError → Attempt
failed e = record { waited = true; dial_error = some e; canceled = false; installed = false }

failed_once :
    (longest delay : ℕ) (e : StreamError) (rest : List Attempt)
    → terminal_error e ≡ false
    → retry longest delay false (failed e ∷ rest)
      ≡ retry longest (next_delay longest delay) false rest
unfolding retry
failed_once longest delay e rest h = rw h

capped_high : (longest x : ℕ) → longest ≤ x → capped longest x ≡ longest
capped_high longest x h = ground arith

capped_low : (longest x : ℕ) → x ≤ longest → capped longest x ≡ x
capped_low longest x h = ground arith

capped_le : (longest x : ℕ) → capped longest x ≤ longest
capped_le longest x = ground arith

pow_one : (k : ℕ) → 1 ≤ 2 ^ k
pow_one zero = omega arith
pow_one (suc k) = let h = pow_one k in grind arith

twice : (d p : ℕ) → d * 2 * p ≡ d * (p * 2)
twice d p = grind arith

-- Capping on the way does not change the capped delay.
capped_again :
    (k longest delay : ℕ)
    → capped longest (capped longest (delay * 2) * 2 ^ k) ≡ capped longest (delay * 2 ^ suc k)
capped_again k longest delay =
    let p = pow_one k in
    elim (Bool-cases (ltb longest (delay * 2))) [
      | inl over ↦
          let top : longest ≤ delay * 2 = ground arith in
          let one = mul_mono (2 ^ k) longest (delay * 2) top in
          let two = mul_mono longest 1 (2 ^ k) p in
          let high : longest ≤ delay * 2 ^ suc k = grind arith in
          let still : longest ≤ longest * 2 ^ k = grind arith in
          ap (λ d. capped longest (d * 2 ^ k)) (capped_high longest (delay * 2) top)
          ∙ capped_high longest (longest * 2 ^ k) still
          ∙ sym (capped_high longest (delay * 2 ^ suc k) high)
      | inr under ↦
          let low : delay * 2 ≤ longest = ground arith in
          let same : delay * 2 * 2 ^ k ≡ delay * 2 ^ suc k =
            twice delay (2 ^ k) ∙ ap (λ p. delay * p) (sym (pow-suc 2 k)) in
          ap (λ d. capped longest (d * 2 ^ k)) (capped_low longest (delay * 2) low)
          ∙ ap (capped longest) same
    ]

-- After k dials that failed with errors which do not end the client, run tries again with the first
-- delay doubled k times, and never more than the largest delay.
pub retry-doubles :
    (k longest delay : ℕ) (e : StreamError) (rest : List Attempt)
    → delay ≤ longest
    → terminal_error e ≡ false
    → retry longest delay false (replicate k (failed e) ++ rest)
      ≡ retry longest (capped longest (delay * 2 ^ k)) false rest
retry-doubles zero longest delay e rest h t =
    let same : delay * 2 ^ 0 ≡ delay = omega arith in
    ap (λ d. retry longest d false rest)
      (sym (ap (capped longest) same ∙ capped_low longest delay h))
retry-doubles (suc k) longest delay e rest h t =
    failed_once longest delay e (replicate k (failed e) ++ rest) t
    ∙ ap (λ d. retry longest d false (replicate k (failed e) ++ rest))
        (next_delay-capped longest delay h)
    ∙ retry-doubles k longest (capped longest (delay * 2)) e rest (capped_le longest (delay * 2)) t
    ∙ ap (λ d. retry longest d false rest) (capped_again k longest delay)
