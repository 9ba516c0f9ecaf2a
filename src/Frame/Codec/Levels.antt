-- ===== src/Frame/Codec/Levels.antt =====
-- encodeLevels and DecodeLevels of pkg/frame/codec.go against a description of a side of the book.
use takapu_protocol_sdk.Prelude.{
  ℕ, zero, suc, ◌+◌, ◌<◌, ◌≡◌, refl, List, [], ◌∷◌, ◌++◌, true, false, arith, length, ok, inl, inr,
  ◌⊎◌,
}
use takapu_protocol_sdk.Frame.Words.{Word, zero_word, byte_at}
use takapu_protocol_sdk.Frame.Types.{Level}
use takapu_protocol_sdk.Frame.Codec.{
  put_slot, last_offset, decode_levels_loop, decode_levels, encode_levels_loop, encode_levels,
}
use takapu_protocol_sdk.Frame.Codec.Slots.{Holds, IsWord}
use takapu_protocol_sdk.Frame.Codec.Place.{
  AscendsFrom, IsSide, place, place-IsWord, Holds-place, place_reserved, zero_word-IsWord,
}
use mathlib.Core.Path.{subst}
use mathlib.Core.List.{append-nil, append_assoc}

-- The least offset that the loop accepts at index `i` behind the offset `prev`.
abbrev After : ℕ → ℕ → ℕ → Type 0
After i prev lo = (i ≡ 0 → lo ≡ 0) × (0 < i → lo ≡ prev + 1)

encode_levels_loop-ok :
    (ls : List Level) (i prev lo : ℕ) (out : Word)
    → After i prev lo
    → AscendsFrom lo ls
    → encode_levels_loop i prev ls out ≡ ok (place i ls out)
unfolding encode_levels_loop place
encode_levels_loop-ok [] i prev lo out h a = refl
encode_levels_loop-ok (l ∷ ls) i prev lo out h a = ground (
  arith,
  encode_levels_loop-ok ls (i + 1) l.offset (l.offset + 1) (put_slot out i l)
      ((λ e. omega arith), (λ p. omega arith)) a.2,
)

encode_levels_loop-AscendsFrom :
    (ls : List Level) (i prev lo : ℕ) (out w : Word)
    → After i prev lo
    → encode_levels_loop i prev ls out ≡ ok w
    → AscendsFrom lo ls
unfolding encode_levels_loop
encode_levels_loop-AscendsFrom [] i prev lo out w h a = tt
encode_levels_loop-AscendsFrom (l ∷ ls) i prev lo out w h a = ground (
  arith,
  encode_levels_loop-AscendsFrom ls (i + 1) l.offset (l.offset + 1) (put_slot out i l) w
      ((λ e. omega arith), (λ p. omega arith)),
)

start : After 0 0 0
start = ((λ e. omega arith), (λ p. omega arith))

pub encode_levels-ok : (ls : List Level) → IsSide ls → encode_levels ls ≡ ok (place 0 ls zero_word)
unfolding encode_levels
encode_levels-ok ls h = ground (arith, encode_levels_loop-ok ls 0 0 0 zero_word start h.1)

pub encode_levels-IsSide : (ls : List Level) (w : Word) → encode_levels ls ≡ ok w → IsSide ls
unfolding encode_levels
encode_levels-IsSide ls w h =
    ground (arith, encode_levels_loop-AscendsFrom ls 0 0 0 zero_word w start)

-- Behind an empty slot the loop passes over empty slots only.
decode_levels_loop-closed :
    (rounds i : ℕ) (w : Word) (acc : List Level)
    → Holds rounds i w []
    → decode_levels_loop rounds i w acc true ≡ ok acc
unfolding decode_levels_loop
decode_levels_loop-closed zero i w acc h = refl
decode_levels_loop-closed (suc rounds) i w acc h =
    rw h.0 (decode_levels_loop-closed rounds (i + 1) w acc h.1)

pub last_offset-append : (acc : List Level) (l : Level) → last_offset (acc ++ l ∷ []) ≡ l.offset
last_offset-append [] l = refl
last_offset-append (m ∷ []) l = refl
last_offset-append (m ∷ n ∷ acc) l = last_offset-append (n ∷ acc) l

-- What the levels read so far ask of the next one.
abbrev Behind : List Level → ℕ → Type 0
Behind acc lo = (length acc ≡ 0) ⊎ (last_offset acc < lo)

Behind-append : (acc : List Level) (l : Level) → Behind (acc ++ l ∷ []) (l.offset + 1)
Behind-append acc l = inr (omega (arith, last_offset-append acc l))

decode_levels_loop-ok :
    (rounds i lo : ℕ) (w : Word) (acc ls : List Level)
    → Holds rounds i w ls
    → AscendsFrom lo ls
    → Behind acc lo
    → decode_levels_loop rounds i w acc false ≡ ok (acc ++ ls)
unfolding decode_levels_loop
decode_levels_loop-ok zero i lo w acc [] h a b = rw append-nil
decode_levels_loop-ok zero i lo w acc (l ∷ ls) h a b = absurd h
decode_levels_loop-ok (suc rounds) i lo w acc [] h a b =
    rw (h.0, append-nil) (decode_levels_loop-closed rounds (i + 1) w acc h.1)
decode_levels_loop-ok (suc rounds) i lo w acc (l ∷ ls) h a b = ground (
  arith,
  append_assoc acc (l ∷ []) ls,
  decode_levels_loop-ok rounds (i + 1) (l.offset + 1) w (acc ++ l ∷ []) ls h.1 a.2
      (Behind-append acc l),
)

-- DecodeLevels returns the levels that a word holds, if they are a side of a book.
pub decode_levels-ok :
    (w : Word) (ls : List Level)
    → IsWord w
    → byte_at w 0 ≡ 0
    → byte_at w 1 ≡ 0
    → IsSide ls
    → Holds 5 0 w ls
    → decode_levels w ≡ ok ls
unfolding decode_levels
decode_levels-ok w ls hw e0 e1 hs h =
    ground (arith, decode_levels_loop-ok 5 0 0 w [] ls h hs.1 (inl refl))

-- Whatever encodeLevels accepts, DecodeLevels reads back.
pub decode_levels-encode_levels :
    (ls : List Level) (w : Word) → encode_levels ls ≡ ok w → decode_levels w ≡ ok ls
decode_levels-encode_levels ls w h =
    let side = encode_levels-IsSide ls w h in
    let e : place 0 ls zero_word ≡ w = cc (encode_levels-ok ls side) in
    subst (λ v. decode_levels v ≡ ok ls) e
      (decode_levels-ok (place 0 ls zero_word) ls (place-IsWord 0 ls zero_word zero_word-IsWord)
        (place_reserved 0 ls side (omega arith)) (place_reserved 1 ls side (omega arith)) side
        (Holds-place ls side))
