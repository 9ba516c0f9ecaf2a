-- ===== src/Frame/Codec/Place.antt =====
-- The word that encodeLevels writes, apart from its checks: each level in its slot.
use takapu_protocol_sdk.Prelude.{
  ℕ, zero, suc, ◌+◌, ◌≤◌, ◌<◌, ◌≡◌, refl, ◌∙◌, List, [], ◌∷◌, arith, length, All, set,
}
use takapu_protocol_sdk.Frame.Words.{Word, IsByte, zero_word, byte_at, put24}
use takapu_protocol_sdk.Frame.Types.{Level}
use takapu_protocol_sdk.Frame.Codec.{slot, put_slot}
use takapu_protocol_sdk.Frame.Codec.Slots.{
  IsLevel, IsWord, Holds, length-put_slot, byte_at-put_slot, slot-put_slot_self, slot-put_slot_ne,
  Holds-put_slot, Holds-zero_word,
}

-- Levels in range whose offsets increase strictly, from `lo` on.
abbrev pub AscendsFrom : ℕ → List Level → Type 0
AscendsFrom lo [] = Unit {0}
AscendsFrom lo (l ∷ ls) = (lo ≤ l.offset) × IsLevel l × AscendsFrom (l.offset + 1) ls

-- One side of a book that the codec can carry: at most five levels, best price first.
abbrev pub IsSide : List Level → Type 0
IsSide ls = (length ls ≤ 5) × AscendsFrom 0 ls

unfoldable pub place : ℕ → List Level → Word → Word
place i [] out = out
place i (l ∷ ls) out = place (i + 1) ls (put_slot out i l)

All-set : (w : Word) (i v : ℕ) → All IsByte w → v < 256 → All IsByte (set w i v)
All-set [] i v h hv = tt
All-set (b ∷ w) zero v h hv = (hv, h.1)
All-set (b ∷ w) (suc i) v h hv = (h.0, All-set w i v h.1 hv)

put24-IsByte : (w : Word) (at v : ℕ) → All IsByte w → All IsByte (put24 w at v)
unfolding put24
put24-IsByte w at v h =
    All-set _ _ _ (All-set _ _ _ (All-set w at _ h (omega arith)) (omega arith)) (omega arith)

put_slot-IsWord : (w : Word) (i : ℕ) (l : Level) → IsWord w → IsWord (put_slot w i l)
unfolding put_slot
put_slot-IsWord w i l h =
    (unfold put_slot in (length-put_slot w i l ∙ h.0), put24-IsByte _ _ _ (put24-IsByte w _ _ h.1))

pub place-IsWord : (i : ℕ) (ls : List Level) (out : Word) → IsWord out → IsWord (place i ls out)
unfolding place
place-IsWord i [] out h = h
place-IsWord i (l ∷ ls) out h =
    place-IsWord (i + 1) ls (put_slot out i l) (put_slot-IsWord out i l h)

byte_at-place :
    (i j : ℕ) (ls : List Level) (out : Word)
    → i + length ls ≤ 5
    → j < 2
    → byte_at (place i ls out) j ≡ byte_at out j
unfolding place
byte_at-place i j [] out h hj = refl
byte_at-place i j (l ∷ ls) out h hj =
    byte_at-place (i + 1) j ls (put_slot out i l) (omega arith) hj
    ∙ byte_at-put_slot out i j l (omega arith) hj

slot-place :
    (i j : ℕ) (ls : List Level) (out : Word)
    → i + length ls ≤ 5
    → j < i
    → slot (place i ls out) j ≡ slot out j
unfolding place
slot-place i j [] out h hj = refl
slot-place i j (l ∷ ls) out h hj =
    slot-place (i + 1) j ls (put_slot out i l) (omega arith) (omega arith)
    ∙ slot-put_slot_ne out i j l (omega arith) (omega arith) (omega arith)

Holds-place_from :
    (rounds i lo : ℕ) (ls : List Level) (out : Word)
    → rounds + i ≡ 5
    → length ls ≤ rounds
    → IsWord out
    → AscendsFrom lo ls
    → Holds rounds i out []
    → Holds rounds i (place i ls out) ls
unfolding place
Holds-place_from rounds i lo [] out e hl ho ha h = h
Holds-place_from zero i lo (l ∷ ls) out e hl ho ha h = absurd (omega arith)
Holds-place_from (suc rounds) i lo (l ∷ ls) out e hl ho (_, hlev, ha) h = (
  slot-place (i + 1) i ls (put_slot out i l) (omega arith) (omega arith)
      ∙ slot-put_slot_self out i l ho.0 (omega arith) hlev,
  Holds-place_from rounds (i + 1) (l.offset + 1) ls (put_slot out i l) (omega arith) (omega arith)
      (put_slot-IsWord out i l ho) ha
      (Holds-put_slot rounds (i + 1) i out l [] (omega arith) (omega arith) h.1),
)

pub zero_word-IsWord : IsWord zero_word
zero_word-IsWord = omega arith

-- A side of a book, placed from the first slot on, is what the word holds.
pub Holds-place : (ls : List Level) → IsSide ls → Holds 5 0 (place 0 ls zero_word) ls
Holds-place ls (hl, ha) =
    Holds-place_from 5 0 0 ls zero_word (omega arith) hl zero_word-IsWord ha Holds-zero_word

-- The reserved bytes stay clear.
pub place_reserved :
    (j : ℕ) (ls : List Level) → IsSide ls → j < 2 → byte_at (place 0 ls zero_word) j ≡ 0
place_reserved zero ls h hj = byte_at-place 0 0 ls zero_word (omega arith) hj
place_reserved (suc zero) ls h hj = byte_at-place 0 1 ls zero_word (omega arith) hj
place_reserved (suc (suc j)) ls h hj = absurd (omega arith)
