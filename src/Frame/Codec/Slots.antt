-- ===== src/Frame/Codec/Slots.antt =====
-- The slots of a level word: what put_slot writes, and the levels that a word holds slot by slot.
use takapu_protocol_sdk.Prelude.{
  ℕ, zero, suc, ◌+◌, ◌-◌, ◌≤◌, ◌<◌, ◌≡◌, ◌≢◌, refl, sym, ◌∙◌, ap, inl, ◌⊎◌, List, [], ◌∷◌, arith,
  length, All, list_ext, ℕ_discrete, ◌/◌,
}
use mathlib.Core.Path.{subst}
use takapu_protocol_sdk.Frame.Words.{
  Word, IsByte, zero_word, byte_at, put24, get24, length-put24, byte_at-put24_ne, get24-put24,
  get24-put24_ne, get24-injective,
}
use takapu_protocol_sdk.Frame.Types.{Level, max_tick}
use takapu_protocol_sdk.Frame.Codec.{slot_start, slot, put_slot}

-- The range of a level: a uint24 offset, and a positive uint24 quantity.
abbrev pub IsLevel : Level → Type 0
IsLevel l = (l.offset ≤ max_tick) × (0 < l.qty_lots) × (l.qty_lots ≤ max_tick)

pub length-put_slot : (w : Word) (i : ℕ) (l : Level) → length (put_slot w i l) ≡ length w
unfolding put_slot
length-put_slot w i l = length-put24 _ _ _ ∙ length-put24 w _ _

-- The two reserved bytes in front of the slots are left alone.
pub byte_at-put_slot :
    (w : Word) (i j : ℕ) (l : Level) → i < 5 → j < 2 → byte_at (put_slot w i l) j ≡ byte_at w j
unfolding put_slot
byte_at-put_slot w i j l hi hj =
    byte_at-put24_ne _ (slot_start i + 3) l.qty_lots j (inl (omega arith))
    ∙ byte_at-put24_ne w (slot_start i) l.offset j (inl (omega arith))

pub slot-put_slot_self :
    (w : Word) (i : ℕ) (l : Level) → length w ≡ 32 → i < 5 → IsLevel l → slot (put_slot w i l) i ≡ l
unfolding slot put_slot
slot-put_slot_self w i l hw hi (ho, hp, hq) = λ k. record {
  offset =
      (get24-put24_ne _ (slot_start i + 3) l.qty_lots (slot_start i) (inl (omega arith))
          ∙ get24-put24 w (slot_start i) l.offset (omega arith) (omega arith))
        k;
  qty_lots =
      get24-put24 (put24 w (slot_start i) l.offset) (slot_start i + 3) l.qty_lots
        (omega (arith, length-put24 w (slot_start i) l.offset)) (omega arith) k;
}

get24-put_slot_ne :
    (w : Word) (i at : ℕ) (l : Level)
    → (at + 3 ≤ slot_start i) ⊎ (slot_start i + 6 ≤ at)
    → get24 (put_slot w i l) at ≡ get24 w at
unfolding put_slot
get24-put_slot_ne w i at l h =
    get24-put24_ne _ (slot_start i + 3) l.qty_lots at (omega arith)
    ∙ get24-put24_ne w (slot_start i) l.offset at (omega arith)

pub slot-put_slot_ne :
    (w : Word) (i j : ℕ) (l : Level) → i < 5 → j < 5 → i ≢ j → slot (put_slot w i l) j ≡ slot w j
unfolding slot
slot-put_slot_ne w i j l hi hj ne = λ k. record {
  offset = get24-put_slot_ne w i (slot_start j) l (omega arith) k;
  qty_lots = get24-put_slot_ne w i (slot_start j + 3) l (omega arith) k;
}

-- A [32]byte value.
abbrev pub IsWord : Word → Type 0
IsWord w = (length w ≡ 32) × All IsByte w

abbrev pub empty_slot : Level
empty_slot = record { offset = 0; qty_lots = 0 }

-- The slots i, i + 1, … of a word, `rounds` of them, hold the levels and then zeros.
abbrev pub Holds : ℕ → ℕ → Word → List Level → Type 0
Holds zero i w [] = Unit {0}
Holds zero i w (l ∷ ls) = ⊥
Holds (suc rounds) i w [] = (slot w i ≡ empty_slot) × Holds rounds (i + 1) w []
Holds (suc rounds) i w (l ∷ ls) = (slot w i ≡ l) × Holds rounds (i + 1) w ls

pub Holds-zero_word : Holds 5 0 zero_word []
unfolding slot get24
Holds-zero_word = (refl, (refl, (refl, (refl, (refl, tt)))))

-- A write to an earlier slot changes nothing here.
pub Holds-put_slot :
    (rounds i j : ℕ) (w : Word) (l : Level) (ls : List Level)
    → rounds + i ≡ 5
    → j < i
    → Holds rounds i w ls
    → Holds rounds i (put_slot w j l) ls
Holds-put_slot zero i j w l [] e h p = tt
Holds-put_slot zero i j w l (m ∷ ls) e h p = p
Holds-put_slot (suc rounds) i j w l [] e h (p, q) = (
  slot-put_slot_ne w j i l (omega arith) (omega arith) (omega arith) ∙ p,
  Holds-put_slot rounds (i + 1) j w l [] (omega arith) (omega arith) q,
)
Holds-put_slot (suc rounds) i j w l (m ∷ ls) e h (p, q) = (
  slot-put_slot_ne w j i l (omega arith) (omega arith) (omega arith) ∙ p,
  Holds-put_slot rounds (i + 1) j w l ls (omega arith) (omega arith) q,
)

-- Two words that hold the same levels agree on every slot.
slots-eq :
    (rounds i : ℕ) (u w : Word) (ls : List Level) (j : ℕ)
    → Holds rounds i u ls
    → Holds rounds i w ls
    → i ≤ j
    → j < rounds + i
    → slot u j ≡ slot w j
slots-eq zero i u w ls j p q lo hi = absurd (omega arith)
slots-eq (suc rounds) i u w [] j (p, ps) (q, qs) lo hi = elim (ℕ_discrete i j) [
  | yes e ↦ subst (λ k. slot u k ≡ slot w k) e (p ∙ sym q)
  | no ne ↦ slots-eq rounds (i + 1) u w [] j ps qs (omega arith) (omega arith)
]
slots-eq (suc rounds) i u w (l ∷ ls) j (p, ps) (q, qs) lo hi = elim (ℕ_discrete i j) [
  | yes e ↦ subst (λ k. slot u k ≡ slot w k) e (p ∙ sym q)
  | no ne ↦ slots-eq rounds (i + 1) u w ls j ps qs (omega arith) (omega arith)
]

pub byte_at-IsByte : (w : Word) (j : ℕ) → All IsByte w → byte_at w j < 256
byte_at-IsByte [] j h = omega arith
byte_at-IsByte (b ∷ w) zero h = h.0
byte_at-IsByte (b ∷ w) (suc j) h = byte_at-IsByte w j h.1

-- The six bytes of a slot are determined by the level.
slot_bytes-eq :
    (u w : Word) (i j : ℕ)
    → All IsByte u
    → All IsByte w
    → slot u i ≡ slot w i
    → slot_start i ≤ j
    → j < slot_start i + 6
    → byte_at u j ≡ byte_at w j
unfolding slot
slot_bytes-eq u w i j hu hw e lo hi = ground (
  arith,
  ap (λ (l : Level). l.offset) e,
  ap (λ (l : Level). l.qty_lots) e,
  field (slot_start i),
  field (slot_start i + 3),
)
  where
    field :
        (at : ℕ)
        → get24 u at ≡ get24 w at
        → (byte_at u at ≡ byte_at w at)
          × (byte_at u (at + 1) ≡ byte_at w (at + 1))
          × (byte_at u (at + 2) ≡ byte_at w (at + 2))
    field at =
        get24-injective u w at (byte_at-IsByte u _ hu, byte_at-IsByte u _ hu, byte_at-IsByte u _ hu)
          (byte_at-IsByte w _ hw, byte_at-IsByte w _ hw, byte_at-IsByte w _ hw)

-- A word with clear reserved bytes is determined by the levels that it holds.
pub Holds-injective :
    (u w : Word) (ls : List Level)
    → IsWord u
    → IsWord w
    → byte_at u 0 ≡ byte_at w 0
    → byte_at u 1 ≡ byte_at w 1
    → Holds 5 0 u ls
    → Holds 5 0 w ls
    → u ≡ w
Holds-injective u w ls (lu, hu) (lw, hw) e0 e1 p q =
    list_ext u w 0 (omega arith) (λ j hj. byte j (omega arith))
  where
    byte : (j : ℕ) → j < 32 → byte_at u j ≡ byte_at w j
    byte zero h = e0
    byte (suc zero) h = e1
    byte (suc (suc j)) h =
        slot_bytes-eq u w (4 - j / 6) (suc (suc j)) hu hw
          (slots-eq 5 0 u w ls (4 - j / 6) p q (omega arith) (omega arith)) (omega arith)
          (omega arith)
