-- ===== src/Decimal/RoundTrip.antt =====
-- A number that decimal of pkg/frame/decimal.go prints is the one that quoteDecimal of
-- pkg/router/quote.go reads.
use takapu_protocol_sdk.Prelude.{
  ℕ, zero, suc, ◌+◌, ◌-◌, ◌^◌, ◌≤◌, ◌<◌, ◌≡◌, refl, sym, ◌∙◌, ap, Bool, true, false, [], ◌∷◌, ◌++◌,
  arith, length, length-append, length-replicate, take, drop, replicate, All, All-append, ℤ, pos,
  negsuc, minus, ok, inl, inr, ◌⊎◌,
}
use takapu_protocol_sdk.Decimal.Digits.{
  Text, IsDigit, all_digits, set_string, read_digits, to_string, to_string-read, to_string-IsDigit,
  to_string_pos,
}
use takapu_protocol_sdk.Decimal.Print.{
  is_empty, trim_right, pad_left, point_in, decimal, trim_right-append_nil, trim_right-append_cons,
  trim_right-append_kept, trim_right-restore,
}
use takapu_protocol_sdk.Decimal.Parse.{cut_dot, all_zeros, shift_digits, quote_decimal}
use mathlib.Core.List.{append-nil, append_assoc}
use mathlib.Core.Path.{subst}
use native.Mathlib.Nat.{add-zero}

cut_dot-digits :
    (s : Text) → All IsDigit s → cut_dot s ≡ record { before = s; after = []; found = false }
unfolding cut_dot
cut_dot-digits [] h = refl
cut_dot-digits (c ∷ s) h = ground (arith, cut_dot-digits s h.1)

cut_dot-point :
    (s t : Text)
    → All IsDigit s
    → cut_dot (s ++ b'.' ∷ t) ≡ record { before = s; after = t; found = true }
unfolding cut_dot
cut_dot-point [] t h = refl
cut_dot-point (c ∷ s) t h = ground (arith, cut_dot-point s t h.1)

all_digits-ok : (s : Text) → All IsDigit s → all_digits s ≡ true
unfolding all_digits
all_digits-ok [] h = refl
all_digits-ok (c ∷ s) h = ground (arith, all_digits-ok s h.1)

all_zeros-replicate : (k : ℕ) → all_zeros (replicate k b'0') ≡ true
unfolding all_zeros
all_zeros-replicate zero = refl
all_zeros-replicate (suc k) = all_zeros-replicate k

take-append : (a b : Text) (n : ℕ) → n ≡ length a → take n (a ++ b) ≡ a
take-append [] b zero h = refl
take-append [] b (suc n) h = absurd (omega arith)
take-append (x ∷ a) b zero h = absurd (omega arith)
take-append (x ∷ a) b (suc n) h = ap (λ t. x ∷ t) (take-append a b n (omega arith))

drop-append : (a b : Text) (n : ℕ) → n ≡ length a → drop n (a ++ b) ≡ b
drop-append [] b zero h = refl
drop-append [] b (suc n) h = absurd (omega arith)
drop-append (x ∷ a) b zero h = absurd (omega arith)
drop-append (x ∷ a) b (suc n) h = drop-append a b n (omega arith)

-- The value that quoteDecimal returns, from the parts of the text and the shifted digits.
module _ (value w f t : Text) (found : Bool) (scale : ℤ) where
  read_parts :
      cut_dot value ≡ record { before = w; after = f; found = found }
      → 0 < length w
      → (found ≡ false) ⊎ (0 < length f)
      → All IsDigit (w ++ f)
      → 0 < length value
      → length value ≤ 64
      → shift_digits (w ++ f) (minus scale (length f)) ≡ ok t
      → 0 < set_string t
      → set_string t < 2 ^ 256
      → quote_decimal value scale ≡ ok (set_string t)
  unfolding quote_decimal
  read_parts c hw hf hd lo hi sh pos_n fits =
      rw (c, all_digits-ok (w ++ f) hd, sh) (ground (arith, nonempty w, nonempty f))
    where
      nonempty : (s : Text) → 0 < length s → is_empty s ≡ false
      nonempty [] h = absurd (omega arith)
      nonempty (x ∷ s) h = refl

replicate-IsDigit : (k : ℕ) → All IsDigit (replicate k b'0')
replicate-IsDigit zero = tt
replicate-IsDigit (suc k) = (omega arith, replicate-IsDigit k)

All-take : (n : ℕ) (s : Text) → All IsDigit s → All IsDigit (take n s)
All-take zero s h = tt
All-take (suc n) [] h = tt
All-take (suc n) (c ∷ s) h = (h.0, All-take n s h.1)

All-drop : (n : ℕ) (s : Text) → All IsDigit s → All IsDigit (drop n s)
All-drop zero s h = h
All-drop (suc n) [] h = tt
All-drop (suc n) (c ∷ s) h = All-drop n s h.1

All-front : (s t : Text) → All IsDigit (s ++ t) → All IsDigit s
All-front [] t h = tt
All-front (c ∷ s) t h = (h.0, All-front s t h.1)

trim_right-digits : (s : Text) → All IsDigit s → trim_right b'.' s ≡ s
unfolding trim_right
trim_right-digits [] h = refl
trim_right-digits (c ∷ s) h = ground (arith, trim_right-digits s h.1)

shift_digits-back :
    (s : Text) (k : ℕ) → 0 < length s → shift_digits (s ++ replicate (suc k) b'0') (negsuc k) ≡ ok s
unfolding shift_digits
shift_digits-back s k h =
    let len = length-append s (replicate (suc k) b'0') in
    let zeros = length-replicate {A = ℕ} (suc k) b'0' in
    let end : length (s ++ replicate (suc k) b'0') - suc k ≡ length s = omega (arith, len, zeros) in
    rw
      (
        end,
        take-append s (replicate (suc k) b'0') (length s) refl,
        drop-append s (replicate (suc k) b'0') (length s) refl,
      )
      (ground (arith, all_zeros-replicate (suc k), len, zeros))

-- The printed digits with leading zeros write the same number.
read_digits-leading : (k : ℕ) (s : Text) → set_string (replicate k b'0' ++ s) ≡ set_string s
unfolding read_digits
read_digits-leading zero s = refl
read_digits-leading (suc k) s = read_digits-leading k s

-- What the padding gives: a digit at least in front of `scale` digits.
pad_left_lem :
    (s : Text) (scale : ℕ)
    → All IsDigit s
    → All IsDigit (pad_left s scale)
      × (scale < length (pad_left s scale))
      × (set_string (pad_left s scale) ≡ set_string s)
unfolding pad_left
pad_left_lem s scale h = ground (
  arith,
  All-append IsDigit (replicate (scale + 1 - length s) b'0') s
      (replicate-IsDigit (scale + 1 - length s)) h,
  length-append (replicate (scale + 1 - length s) b'0') s,
  length-replicate {A = ℕ} (scale + 1 - length s) b'0',
  read_digits-leading (scale + 1 - length s) s,
)

-- The two forms of a text with a point in front of its last digits, trimmed.
pointed_whole :
    (a b : Text)
    → All IsDigit a
    → trim_right b'0' b ≡ []
    → trim_right b'.' (trim_right b'0' (a ++ b'.' ∷ b)) ≡ a
unfolding trim_right
pointed_whole a b da e =
    rw (trim_right-append_kept b'0' a b'.' b (omega arith), e)
      (trim_right-append_nil b'.' a (b'.' ∷ []) refl ∙ trim_right-digits a da)

pointed_fraction :
    (a b f : Text)
    → All IsDigit f
    → 0 < length f
    → trim_right b'0' b ≡ f
    → trim_right b'.' (trim_right b'0' (a ++ b'.' ∷ b)) ≡ a ++ b'.' ∷ f
pointed_fraction a b [] df hf e = absurd (omega arith)
pointed_fraction a b (y ∷ ys) df hf e =
    rw (trim_right-append_kept b'0' a b'.' b (omega arith), e)
      (trim_right-append_cons b'.' a (b'.' ∷ y ∷ ys) point ∙ ap (λ t. a ++ t) point)
  where
    point : trim_right b'.' (b'.' ∷ y ∷ ys) ≡ b'.' ∷ y ∷ ys
    point = unfold trim_right in rw (trim_right-digits (y ∷ ys) df)

shift_digits-forward :
    (s : Text) (m l : ℕ)
    → l ≤ m
    → shift_digits s (minus (pos m) l) ≡ ok (s ++ replicate (m - l) b'0')
unfolding shift_digits
shift_digits-forward s m l h = ground arith

-- Without a fraction, the digits of the fraction are zeros.
read_whole :
    (a b : Text) (m j : ℕ)
    → All IsDigit a
    → 0 < length a
    → length a ≤ 64
    → length b ≡ m
    → replicate j b'0' ≡ b
    → 0 < set_string (a ++ b)
    → set_string (a ++ b) < 2 ^ 256
    → quote_decimal a (pos m) ≡ ok (set_string (a ++ b))
read_whole a b m j da ha len hb r lo hi =
    read_parts a a [] (a ++ b) false (pos m) (cut_dot-digits a da) ha (inl refl) (rw append-nil da)
      ha len shifted lo hi
  where
    count : replicate (m - 0) b'0' ≡ b
    count =
        let size : m - 0 ≡ j = omega (arith, hb, ap length r, length-replicate {A = ℕ} j b'0') in
        rw size r

    shifted : shift_digits (a ++ []) (minus (pos m) 0) ≡ ok (a ++ b)
    shifted =
        shift_digits-forward (a ++ []) m 0 (omega arith)
        ∙ ap ok (ap (λ t. t ++ replicate (m - 0) b'0') (append-nil a) ∙ ap (λ t. a ++ t) count)

-- With a fraction, what is cut off its end is zeros.
read_fraction :
    (a b f : Text) (m j : ℕ)
    → All IsDigit a
    → All IsDigit b
    → 0 < length a
    → 0 < length f
    → length (a ++ b'.' ∷ f) ≤ 64
    → length b ≡ m
    → f ++ replicate j b'0' ≡ b
    → 0 < set_string (a ++ b)
    → set_string (a ++ b) < 2 ^ 256
    → quote_decimal (a ++ b'.' ∷ f) (pos m) ≡ ok (set_string (a ++ b))
read_fraction a b f m j da db ha hf len hb r lo hi =
    read_parts (a ++ b'.' ∷ f) a f (a ++ b) true (pos m) (cut_dot-point a f da) ha (inr hf)
      (All-append IsDigit a f da (All-front f (replicate j b'0') (subst (All IsDigit) (sym r) db)))
      (omega (arith, length-append a (b'.' ∷ f))) len shifted lo hi
  where
    sizes : length f + j ≡ m
    sizes = omega (
      arith,
      hb,
      ap length r,
      length-append f (replicate j b'0'),
      length-replicate {A = ℕ} j b'0',
    )

    shifted : shift_digits (a ++ f) (minus (pos m) (length f)) ≡ ok (a ++ b)
    shifted =
        let count : m - length f ≡ j = omega (arith, sizes) in
        shift_digits-forward (a ++ f) m (length f) (omega (arith, sizes))
        ∙ rw (count, append_assoc, r)

-- A text with a point in front of its last digits, trimmed, reads as all of them.
read_pointed :
    (a b : Text) (m : ℕ)
    → All IsDigit a
    → All IsDigit b
    → 0 < length a
    → length b ≡ m
    → 0 < set_string (a ++ b)
    → set_string (a ++ b) < 2 ^ 256
    → length (trim_right b'.' (trim_right b'0' (a ++ b'.' ∷ b))) ≤ 64
    → quote_decimal (trim_right b'.' (trim_right b'0' (a ++ b'.' ∷ b))) (pos m)
      ≡ ok (set_string (a ++ b))
read_pointed a b m da db ha hb lo hi = go (trim_right b'0' b) refl (trim_right-restore b'0' b)
  where
    Goal : Text → Type 0
    Goal v = length v ≤ 64 → quote_decimal v (pos m) ≡ ok (set_string (a ++ b))

    go :
        (f : Text)
        → trim_right b'0' b ≡ f
        → (k : ℕ) × (trim_right b'0' b ++ replicate k b'0' ≡ b)
        → Goal (trim_right b'.' (trim_right b'0' (a ++ b'.' ∷ b)))
    go [] e (k, r) =
        subst Goal (sym (pointed_whole a b da e))
          (λ len. read_whole a b m k da ha len hb (rw e at r) lo hi)
    go (y ∷ ys) e (k, r) =
        let r' : (y ∷ ys) ++ replicate k b'0' ≡ b = rw e at r in
        subst Goal
          (sym (
            pointed_fraction a b (y ∷ ys)
              (All-front (y ∷ ys) (replicate k b'0') (subst (All IsDigit) (sym r') db))
              (omega arith) e))
          (λ len. read_fraction a b (y ∷ ys) m k da db ha (omega arith) len hb r' lo hi)

-- A whole number with zeros behind it.
read_scaled_up :
    (s : Text) (k : ℕ)
    → All IsDigit s
    → 0 < length s
    → 0 < set_string s
    → set_string s < 2 ^ 256
    → length (s ++ replicate (suc k) b'0') ≤ 64
    → quote_decimal (s ++ replicate (suc k) b'0') (negsuc k) ≡ ok (set_string s)
read_scaled_up s k ds hs lo hi len =
    read_parts text text [] s false (negsuc k) (cut_dot-digits text dt) (omega (arith, long))
      (inl refl) (rw append-nil dt) (omega (arith, long)) len shifted lo hi
  where
    text : Text
    text = s ++ replicate (suc k) b'0'

    dt : All IsDigit (s ++ replicate (suc k) b'0')
    dt = All-append IsDigit s (replicate (suc k) b'0') ds (replicate-IsDigit (suc k))

    long : length (s ++ replicate (suc k) b'0') ≡ length s + length (replicate {A = ℕ} (suc k) b'0')
    long = length-append s (replicate (suc k) b'0')

    shifted : shift_digits ((s ++ replicate (suc k) b'0') ++ []) (minus (negsuc k) 0) ≡ ok s
    shifted = rw (append-nil, add-zero) (shift_digits-back s k hs)

take-append-drop : (n : ℕ) (s : Text) → take n s ++ drop n s ≡ s
take-append-drop zero s = refl
take-append-drop (suc n) [] = refl
take-append-drop (suc n) (c ∷ s) = ap (λ t. c ∷ t) (take-append-drop n s)

length-take : (n : ℕ) (s : Text) → n ≤ length s → length (take n s) ≡ n
length-take zero s h = refl
length-take (suc n) [] h = absurd (omega arith)
length-take (suc n) (c ∷ s) h = ap suc (length-take n s (omega arith))

read_point_in :
    (p : Text) (m : ℕ)
    → All IsDigit p
    → m < length p
    → 0 < set_string p
    → set_string p < 2 ^ 256
    → length (point_in p m) ≤ 64
    → quote_decimal (point_in p m) (pos m) ≡ ok (set_string p)
unfolding point_in
read_point_in p m dp hm lo hi len =
    read_pointed (take split p) (drop split p) m (All-take split p dp) (All-drop split p dp)
      (omega (arith, front))
      (omega (arith, front, ap length whole, length-append (take split p) (drop split p)))
      (rw whole lo) (rw whole hi) len
    ∙ ap ok (ap set_string whole)
  where
    split : ℕ
    split = length p - m

    whole : take (length p - m) p ++ drop (length p - m) p ≡ p
    whole = take-append-drop (length p - m) p

    front : length (take (length p - m) p) ≡ length p - m
    front = length-take (length p - m) p (omega arith)

-- A positive uint256 that `decimal` prints in at most 64 characters, at any scale, is read back by
-- quoteDecimal at the same scale as the same number.
pub quote_decimal-decimal :
    (n : ℕ) (scale : ℤ)
    → 0 < n
    → n < 2 ^ 256
    → length (decimal n scale) ≤ 64
    → quote_decimal (decimal n scale) scale ≡ ok n
unfolding decimal
quote_decimal-decimal n (negsuc k) lo hi len =
    read_scaled_up (to_string n) k (to_string-IsDigit n) (to_string_pos n)
      (omega (arith, to_string-read n)) (omega (arith, to_string-read n)) len
    ∙ ap ok (to_string-read n)
quote_decimal-decimal n (pos zero) lo hi len = rw append-nil (
    read_whole (to_string n) [] 0 0 (to_string-IsDigit n) (to_string_pos n) (rw append-nil at len)
      refl refl (rw (append-nil, to_string-read n) lo) (rw (append-nil, to_string-read n) hi)
    ∙ ap ok (ap set_string (append-nil (to_string n)) ∙ to_string-read n))
quote_decimal-decimal n (pos (suc k)) lo hi len =
    let (digits, longer, same) = pad_left_lem (to_string n) (suc k) (to_string-IsDigit n) in
    let e = same ∙ to_string-read n in
    read_point_in (pad_left (to_string n) (suc k)) (suc k) digits longer (rw e lo) (rw e hi) len
    ∙ ap ok e
