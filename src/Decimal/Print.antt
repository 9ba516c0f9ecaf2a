-- ===== src/Decimal/Print.antt =====
-- decimal of pkg/frame/decimal.go.
use takapu_protocol_sdk.Prelude.{
  ℕ, zero, suc, ◌+◌, ◌-◌, ◌≡◌, ◌≢◌, Bool, true, false, ◌&&◌, [], ◌∷◌, ◌++◌, arith, leb, ◌==◌,
  if◌then◌else◌, length, replicate, take, drop, ℤ, pos, negsuc, ap, refl, ◌∙◌, inl, inr, Bool-cases,
}
use takapu_protocol_sdk.Decimal.Digits.{Text, to_string}
use mathlib.Core.Path.{subst, ap₂}

abbrev pub is_empty : Text → Bool
is_empty [] = true
is_empty (c ∷ cs) = false

-- `strings.TrimRight(s, string(c))`
unfoldable pub trim_right : ℕ → Text → Text
trim_right c [] = []
trim_right c (x ∷ xs) =
    let rest = trim_right c xs in if is_empty rest && x == c then [] else x ∷ rest

-- `if len(s) <= scale { s = strings.Repeat("0", scale+1-len(s)) + s }`
unfoldable pub pad_left : Text → ℕ → Text
pad_left s scale = if leb (length s) scale then replicate (scale + 1 - length s) b'0' ++ s else s

-- The branch of `decimal` for a positive scale, on the padded digits.
unfoldable pub point_in : Text → ℕ → Text
point_in s scale =
    let split = length s - scale in
    trim_right b'.' (trim_right b'0' (take split s ++ b'.' ∷ drop split s))

-- `decimal`
unfoldable pub decimal : ℕ → ℤ → Text
decimal n (negsuc k) = to_string n ++ replicate (suc k) b'0'
decimal n (pos zero) = to_string n ++ replicate 0 b'0'
decimal n (pos (suc k)) = point_in (pad_left (to_string n) (suc k)) (suc k)

is_empty-append : (a b : Text) → is_empty (a ++ b) ≡ (is_empty a && is_empty b)
is_empty-append [] b = refl
is_empty-append (x ∷ a) b = refl

is_empty-eq : (a : Text) → is_empty a ≡ true → a ≡ []
is_empty-eq [] h = refl
is_empty-eq (x ∷ a) h = cc

-- What is trimmed from a text with a known end.
pub trim_right-append_nil :
    (c : ℕ) (a b : Text) → trim_right c b ≡ [] → trim_right c (a ++ b) ≡ trim_right c a
unfolding trim_right
trim_right-append_nil c [] b h = h
trim_right-append_nil c (x ∷ a) b h = rw (trim_right-append_nil c a b h)

pub trim_right-append_cons :
    (c : ℕ) (a b : Text) {y : ℕ} {ys : Text}
    → trim_right c b ≡ y ∷ ys
    → trim_right c (a ++ b) ≡ a ++ trim_right c b
unfolding trim_right
trim_right-append_cons c [] b h = refl
trim_right-append_cons c (x ∷ a) b {y} {ys} h =
    rw (trim_right-append_cons c a b h, is_empty-append, h)
      (ground (arith, is_empty-append a (y ∷ ys)))

trim_right-kept : (c y : ℕ) (b : Text) → y ≢ c → trim_right c (y ∷ b) ≡ y ∷ trim_right c b
unfolding trim_right
trim_right-kept c y b ne = ground arith

pub trim_right-append_kept :
    (c : ℕ) (a : Text) (y : ℕ) (b : Text)
    → y ≢ c
    → trim_right c (a ++ y ∷ b) ≡ a ++ y ∷ trim_right c b
trim_right-append_kept c a y b ne =
    let e = trim_right-kept c y b ne in trim_right-append_cons c a (y ∷ b) e ∙ ap (λ t. a ++ t) e

-- A text is what is left after trimming, and the trimmed characters.
pub trim_right-restore : (c : ℕ) (s : Text) → (k : ℕ) × (trim_right c s ++ replicate k c ≡ s)
unfolding trim_right
trim_right-restore c [] = (0, refl)
trim_right-restore c (x ∷ s) =
    let (k, e) = trim_right-restore c s in
    elim (Bool-cases (is_empty (trim_right c s) && x == c)) [
      | inl gone ↦ (
        suc k,
        rw (gone) (
            ap₂ ◌∷◌ (ground arith) (
              subst (λ t. t ++ replicate k c ≡ s) (is_empty-eq (trim_right c s) (ground arith)) e)),
      )
      | inr kept ↦ (k, rw kept (ap (λ t. x ∷ t) e))
    ]
