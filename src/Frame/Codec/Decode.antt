-- ===== src/Frame/Codec/Decode.antt =====
-- What a successful DecodeLevels of pkg/frame/codec.go says of its word, and that it has one
-- encoding only.
use takapu_protocol_sdk.Prelude.{
  ℕ, zero, suc, ◌+◌, ◌≤◌, ◌<◌, ◌≡◌, refl, sym, ◌∙◌, ap, List, [], ◌∷◌, ◌++◌, true, false, arith,
  length, length-append, All, ok, inl, inr, ◌⊎◌, ◌&&◌, Bool-cases, ◌==◌,
}
use takapu_protocol_sdk.Frame.Words.{Word, IsByte, zero_word, byte_at, get24}
use takapu_protocol_sdk.Frame.Types.{Level, max_tick}
use takapu_protocol_sdk.Frame.Codec.{
  slot_start, slot, last_offset, decode_levels_loop, decode_levels, encode_levels,
}
use takapu_protocol_sdk.Frame.Codec.Slots.{
  IsLevel, Holds, empty_slot, Holds-injective, IsWord, byte_at-IsByte,
}
use takapu_protocol_sdk.Frame.Codec.Place.{
  AscendsFrom, IsSide, place, place-IsWord, Holds-place, place_reserved, zero_word-IsWord,
}
use takapu_protocol_sdk.Frame.Codec.Levels.{encode_levels-ok, last_offset-append}
use mathlib.Core.List.{append-nil, append_assoc}

slot_bounds :
    (w : Word) (i : ℕ)
    → All IsByte w
    → ((slot w i).offset ≤ max_tick) × ((slot w i).qty_lots ≤ max_tick)
unfolding slot get24
slot_bounds w i h = omega (
  arith,
  byte_at-IsByte w (slot_start i) h,
  byte_at-IsByte w (slot_start i + 1) h,
  byte_at-IsByte w (slot_start i + 2) h,
  byte_at-IsByte w (slot_start i + 3) h,
  byte_at-IsByte w (slot_start i + 3 + 1) h,
  byte_at-IsByte w (slot_start i + 3 + 2) h,
)

slot_empty :
    (w : Word) (i : ℕ) → (slot w i).offset ≡ 0 → (slot w i).qty_lots ≡ 0 → slot w i ≡ empty_slot
slot_empty w i e f = λ k. record { offset = e k; qty_lots = f k }

closed_loop :
    (rounds i : ℕ) (w : Word) (acc out : List Level)
    → decode_levels_loop rounds i w acc true ≡ ok out
    → (out ≡ acc) × Holds rounds i w []
unfolding decode_levels_loop
closed_loop zero i w acc out h = ground arith
closed_loop (suc rounds) i w acc out h =
    ground (arith, slot_empty w i, closed_loop rounds (i + 1) w acc out)

-- The least offset that the loop accepts behind the levels read so far.
abbrev Next : List Level → ℕ → Type 0
Next acc lo = ((length acc ≡ 0) × (lo ≡ 0)) ⊎ ((0 < length acc) × (lo ≡ last_offset acc + 1))

Next-append : (acc : List Level) (l : Level) → Next (acc ++ l ∷ []) (l.offset + 1)
Next-append acc l = inr (omega (arith, last_offset-append acc l, length-append acc (l ∷ [])))

-- What the loop adds to the levels read so far, if it succeeds.
abbrev Reads : ℕ → ℕ → ℕ → Word → List Level → List Level → Type 0
Reads rounds i lo w acc out =
    (ls : List Level) × (out ≡ acc ++ ls)
    × Holds rounds i w ls
    × AscendsFrom lo ls
    × (length ls ≤ rounds)

-- One round that reads a level.
open_step :
    (rounds i lo : ℕ) (w : Word) (acc out : List Level)
    → All IsByte w
    → Next acc lo
    → ((slot w i).offset == 0 && (slot w i).qty_lots == 0) ≡ false
    → decode_levels_loop (suc rounds) i w acc false ≡ ok out
    → IsLevel (slot w i)
      × (lo ≤ (slot w i).offset)
      × (decode_levels_loop rounds (i + 1) w (acc ++ slot w i ∷ []) false ≡ ok out)
unfolding decode_levels_loop
open_step rounds i lo w acc out hw n e h = ground (arith, slot_bounds w i hw)

open_loop :
    (rounds i lo : ℕ) (w : Word) (acc out : List Level)
    → All IsByte w
    → Next acc lo
    → decode_levels_loop rounds i w acc false ≡ ok out
    → Reads rounds i lo w acc out
unfolding decode_levels_loop
open_loop zero i lo w acc out hw n h = ([], rw append-nil (ground arith), tt, tt, omega arith)
open_loop (suc rounds) i lo w acc out hw n h =
    elim (Bool-cases ((slot w i).offset == 0 && (slot w i).qty_lots == 0)) [
      | inl skip ↦
          let (e, p) = closed_loop rounds (i + 1) w acc out (ground arith) in
          ([], rw append-nil e, (slot_empty w i (ground arith) (ground arith), p), tt, omega arith)
      | inr more ↦
          let (lev, low, rest) = open_step rounds i lo w acc out hw n more h in
          let (ls, e, p, a, len) =
            open_loop rounds (i + 1) ((slot w i).offset + 1) w (acc ++ slot w i ∷ []) out hw
              (Next-append acc (slot w i)) rest in
          (
            slot w i ∷ ls,
            e ∙ append_assoc acc (slot w i ∷ []) ls,
            (refl, p),
            (low, lev, a),
            omega arith,
          )
    ]

decode_levels_parts :
    (w : Word) (ls : List Level)
    → decode_levels w ≡ ok ls
    → (byte_at w 0 ≡ 0) × (byte_at w 1 ≡ 0) × (decode_levels_loop 5 0 w [] false ≡ ok ls)
unfolding decode_levels
decode_levels_parts w ls h = ground arith

-- A successful DecodeLevels: the result is a side of a book, the word holds it, and the reserved
-- bytes are clear.
pub decode_levels-inv :
    (w : Word) (ls : List Level)
    → All IsByte w
    → decode_levels w ≡ ok ls
    → IsSide ls × Holds 5 0 w ls × (byte_at w 0 ≡ 0) × (byte_at w 1 ≡ 0)
decode_levels-inv w ls hw h =
    let (e0, e1, loop) = decode_levels_parts w ls h in
    let (ms, e, p, a, len) = open_loop 5 0 0 w [] ls hw (inl (refl, refl)) loop in
    let e' : ls ≡ ms = e in rw e' ((len, a), p, e0, e1)

-- Whatever word DecodeLevels accepts is the one that encodeLevels writes for its levels.
pub encode_levels-decode_levels :
    (w : Word) (ls : List Level) → IsWord w → decode_levels w ≡ ok ls → encode_levels ls ≡ ok w
encode_levels-decode_levels w ls hw h =
    let (side, holds, e0, e1) = decode_levels-inv w ls hw.1 h in
    encode_levels-ok ls side
    ∙ ap ok (
        Holds-injective (place 0 ls zero_word) w ls (place-IsWord 0 ls zero_word zero_word-IsWord)
          hw (place_reserved 0 ls side (omega arith) ∙ sym e0)
          (place_reserved 1 ls side (omega arith) ∙ sym e1) (Holds-place ls side) holds)
