-- ===== src/Stream/Subscription/Answers.antt =====
-- What `ack` of internal/subscription.go makes of the results.
use takapu_protocol_sdk.Prelude.{
  ℕ, ◌+◌, ◌≡◌, refl, arith, List, [], ◌∷◌, Option, none, some, length, if◌then◌else◌,
}
use takapu_protocol_sdk.Wire.{PairFilter}
use takapu_protocol_sdk.Stream.Types.{ItemResult}
use takapu_protocol_sdk.Stream.Subscription.{collect, FilterResult}

-- The request and the response that a list of results reports.
abbrev pub filters_of : List ItemResult → List PairFilter
filters_of [] = []
filters_of (x ∷ xs) = x.filter ∷ filters_of xs

abbrev pub outcome : ItemResult → Option FilterResult
outcome x = some (record { is_ok = x.accepted; reason = x.reason })

abbrev pub outcomes_of : List ItemResult → List (Option FilterResult)
outcomes_of [] = []
outcomes_of (x ∷ xs) = outcome x ∷ outcomes_of xs

abbrev pub accepted_of : List ItemResult → List PairFilter
accepted_of [] = []
accepted_of (x ∷ xs) = let rest = accepted_of xs in if x.accepted then x.filter ∷ rest else rest

-- The results are numbered in order.
abbrev pub Numbered : ℕ → List ItemResult → Type 0
Numbered i [] = Unit {0}
Numbered i (x ∷ xs) = (x.index ≡ i) × Numbered (i + 1) xs

abbrev pub AllPresent : List (Option FilterResult) → Type 0
AllPresent [] = Unit {0}
AllPresent (none ∷ rs) = ⊥
AllPresent (some r ∷ rs) = AllPresent rs

-- What an answer to the filters `fs` reports.
abbrev pub Reports :
    ℕ → List PairFilter → List (Option FilterResult) → List ItemResult × List PairFilter → Type 0
Reports i fs rs a =
    (filters_of a.0 ≡ fs) × (outcomes_of a.0 ≡ rs) × Numbered i a.0 × (a.1 ≡ accepted_of a.0)

-- The answer to a request, when there is one result for each filter and none is missing: it names
-- the request's filters in order, numbered from `i`, each with its own result, and the accepted
-- filters are those whose result is ok.
pub collect-Reports :
    (i : ℕ) (fs : List PairFilter) (rs : List (Option FilterResult))
    → length rs ≡ length fs
    → AllPresent rs
    → (a : List ItemResult × List PairFilter) × (collect i fs rs ≡ some a) × Reports i fs rs a
unfolding collect
collect-Reports i [] [] same present = (([], []), refl, (refl, refl, tt, refl))
collect-Reports i [] (r ∷ rs) same present = absurd (omega (arith, same))
collect-Reports i (f ∷ fs) [] same present = absurd (omega (arith, same))
collect-Reports i (f ∷ fs) (none ∷ rs) same present = absurd present
collect-Reports i (f ∷ fs) (some r ∷ rs) same present =
    let (a, e, (named, told, numbered, kept)) =
      collect-Reports (i + 1) fs rs (ground arith) present in
    let item : ItemResult = record {
      index = i;
      filter = f;
      accepted = r.is_ok;
      reason = r.reason;
    } in
    ((item ∷ a.0, if r.is_ok then f ∷ a.1 else a.1), rw e, (cc, cc, (refl, numbered), rw kept))
