-- ===== src/Protocol/Revert/Budget.antt =====
-- The work of ParseRevert of pkg/protocol/revert.go on data that may be cyclic, and what it returns.
use takapu_protocol_sdk.Prelude.{
  ℕ, zero, suc, ◌+◌, ◌≤◌, ◌≡◌, refl, ap, ◌∙◌, sym, arith, Option, none, some, length, List, ltb,
  if-holds, take, drop,
}
use takapu_protocol_sdk.Decimal.Digits.{Text}
use takapu_protocol_sdk.Protocol.Errors.{Failure, reverted, with_data, plain, Value}
use takapu_protocol_sdk.Protocol.Revert.{
  ErrorData, hex, raw, table, other, RevertCodec, Found, try_entry, try_entries, search_value,
  nested_revert_bytes, revert_bytes, explained, reason_of, parse_revert, parse_bytes, parse_known,
  parse_standard, standard_error,
}

-- A search never gives budget back.
abbrev Shrinks : (ℕ → ℕ → Found) → Type 0
Shrinks search = (ref left : ℕ) → (search ref left).1 ≤ left

try_entry-le :
    (search : ℕ → ℕ → Found) (a : Option ℕ) (found : Found)
    → Shrinks search
    → (try_entry search a found).1 ≤ found.1
try_entry-le search none found h = omega arith
try_entry-le search (some ref) (some bytes, left) h = omega arith
try_entry-le search (some ref) (none, left) h = h ref left

try_entries-le :
    (search : ℕ → ℕ → Found) (a b c : Option ℕ) (left : ℕ)
    → Shrinks search
    → (try_entries search a b c left).1 ≤ left
try_entries-le search a b c left h =
    let first = try_entry search a (none, left) in
    let second = try_entry search b first in
    omega (
      arith,
      try_entry-le search a (none, left) h,
      try_entry-le search b first h,
      try_entry-le search c second h,
    )

search_value-le :
    (codec : RevertCodec) (search : ℕ → ℕ → Found) (d : ErrorData) (left : ℕ)
    → Shrinks search
    → (search_value codec search d left).1 ≤ left
search_value-le codec search (hex t) left h = omega arith
search_value-le codec search (raw bytes) left h = omega arith
search_value-le codec search other left h = omega arith
search_value-le codec search (table a b c) left h = try_entries-le search a b c left h

nested-Shrinks :
    (codec : RevertCodec) (heap : ℕ → ErrorData) (fuel : ℕ)
    → Shrinks (nested_revert_bytes codec heap fuel)
unfolding nested_revert_bytes
nested-Shrinks codec heap zero ref left = omega arith
nested-Shrinks codec heap (suc fuel) ref zero = omega arith
nested-Shrinks codec heap (suc fuel) ref (suc left) = omega (
  arith,
  search_value-le codec (nested_revert_bytes codec heap fuel) (heap ref) left
      (nested-Shrinks codec heap fuel),
)

-- Two searches that agree within a budget.
abbrev Agree : ℕ → (ℕ → ℕ → Found) → (ℕ → ℕ → Found) → Type 0
Agree n s t = (ref left : ℕ) → left ≤ n → s ref left ≡ t ref left

try_entry-Agree :
    (n : ℕ) (s t : ℕ → ℕ → Found) (a : Option ℕ) (found : Found)
    → Agree n s t
    → found.1 ≤ n
    → try_entry s a found ≡ try_entry t a found
try_entry-Agree n s t none found h le = refl
try_entry-Agree n s t (some ref) (some bytes, left) h le = refl
try_entry-Agree n s t (some ref) (none, left) h le = h ref left le

try_entries-Agree :
    (n : ℕ) (s t : ℕ → ℕ → Found) (a b c : Option ℕ)
    → Agree n s t
    → Shrinks t
    → try_entries s a b c n ≡ try_entries t a b c n
try_entries-Agree n s t a b c h shrinks =
    let first = try_entry t a (none, n) in
    let second = try_entry t b first in
    let le1 = try_entry-le t a (none, n) shrinks in
    let le2 = try_entry-le t b first shrinks in
    ap (λ (x : Found). try_entry s c (try_entry s b x))
      (try_entry-Agree n s t a (none, n) h (omega arith))
    ∙ ap (try_entry s c) (try_entry-Agree n s t b first h le1)
    ∙ try_entry-Agree n s t c second h (omega (arith, le1, le2))

search_value-Agree :
    (codec : RevertCodec) (n : ℕ) (s t : ℕ → ℕ → Found) (d : ErrorData)
    → Agree n s t
    → Shrinks t
    → search_value codec s d n ≡ search_value codec t d n
search_value-Agree codec n s t (hex x) h shrinks = refl
search_value-Agree codec n s t (raw x) h shrinks = refl
search_value-Agree codec n s t other h shrinks = refl
search_value-Agree codec n s t (table a b c) h shrinks = try_entries-Agree n s t a b c h shrinks

nested-Agree :
    (codec : RevertCodec) (heap : ℕ → ErrorData) (f g n : ℕ)
    → n ≤ f
    → n ≤ g
    → Agree n (nested_revert_bytes codec heap f) (nested_revert_bytes codec heap g)
unfolding nested_revert_bytes
nested-Agree codec heap zero zero n p q ref left le = refl
nested-Agree codec heap zero (suc g) n p q ref zero le = refl
nested-Agree codec heap zero (suc g) n p q ref (suc left) le = absurd (omega (arith, p, le))
nested-Agree codec heap (suc f) zero n p q ref zero le = refl
nested-Agree codec heap (suc f) zero n p q ref (suc left) le = absurd (omega (arith, q, le))
nested-Agree codec heap (suc f) (suc g) n p q ref zero le = refl
nested-Agree codec heap (suc f) (suc g) n p q ref (suc left) le =
    search_value-Agree codec left (nested_revert_bytes codec heap f)
      (nested_revert_bytes codec heap g) (heap ref)
      (nested-Agree codec heap f g left (omega (arith, p, le)) (omega (arith, q, le)))
      (nested-Shrinks codec heap g)

-- The recursion of nestedRevertBytes ends on every graph of values, cyclic ones included: a depth
-- of the budget is enough, since any greater depth finds the same bytes with the same budget left,
-- and the budget left is at most the one given.
pub nested_revert_bytes-depth :
    (codec : RevertCodec) (heap : ℕ → ErrorData) (fuel extra ref remaining : ℕ)
    → remaining ≤ fuel
    → (nested_revert_bytes codec heap (fuel + extra) ref remaining
        ≡ nested_revert_bytes codec heap fuel ref remaining)
      × ((nested_revert_bytes codec heap fuel ref remaining).1 ≤ remaining)
nested_revert_bytes-depth codec heap fuel extra ref remaining h = (
  nested-Agree codec heap (fuel + extra) fuel remaining (omega arith) h ref remaining (omega arith),
  nested-Shrinks codec heap fuel ref remaining,
)

-- What a parse adds to a failure that carries data: its cause and bytes of four or more.
abbrev pub Explains : RevertCodec → (ℕ → ErrorData) → Failure → Failure → Type 0
Explains codec heap (with_data cause ref) (reverted e) =
    (e.cause ≡ cause) × (revert_bytes codec heap ref ≡ some e.raw) × (4 ≤ length e.raw)
Explains codec heap e f = f ≡ e

explained-Explains :
    (codec : RevertCodec) (heap : ℕ → ErrorData) (cause ref : ℕ) (name : Text) (bytes : List ℕ)
    (values : Option (List Value))
    → revert_bytes codec heap ref ≡ some bytes
    → 4 ≤ length bytes
    → Explains codec heap
        (with_data cause ref)
        (explained (with_data cause ref) name cause bytes values)
explained-Explains codec heap cause ref name bytes none e long = refl
explained-Explains codec heap cause ref name bytes (some values) e long = (refl, e, long)

parse_standard-Explains :
    (codec : RevertCodec) (heap : ℕ → ErrorData) (cause ref : ℕ) (bytes : List ℕ)
    (name : Option Text)
    → revert_bytes codec heap ref ≡ some bytes
    → 4 ≤ length bytes
    → Explains codec heap
        (with_data cause ref)
        (parse_standard codec (with_data cause ref) cause bytes name)
unfolding parse_standard
parse_standard-Explains codec heap cause ref bytes none e long = (refl, e, long)
parse_standard-Explains codec heap cause ref bytes (some name) e long =
    explained-Explains codec heap cause ref name bytes (reason_of (codec.unpack_revert bytes)) e
      long

parse_known-Explains :
    (codec : RevertCodec) (heap : ℕ → ErrorData) (cause ref : ℕ) (bytes : List ℕ)
    (name : Option Text)
    → revert_bytes codec heap ref ≡ some bytes
    → 4 ≤ length bytes
    → Explains codec heap
        (with_data cause ref)
        (parse_known codec (with_data cause ref) cause bytes name)
unfolding parse_known
parse_known-Explains codec heap cause ref bytes none e long =
    parse_standard-Explains codec heap cause ref bytes (standard_error (take 4 bytes)) e long
parse_known-Explains codec heap cause ref bytes (some name) e long =
    explained-Explains codec heap cause ref name bytes (codec.unpack_error name (drop 4 bytes)) e
      long

parse_bytes-Explains :
    (codec : RevertCodec) (heap : ℕ → ErrorData) (cause ref : ℕ) (found : Option (List ℕ))
    → revert_bytes codec heap ref ≡ found
    → Explains codec heap
        (with_data cause ref)
        (parse_bytes codec (with_data cause ref) cause found)
unfolding parse_bytes
parse_bytes-Explains codec heap cause ref none e = refl
parse_bytes-Explains codec heap cause ref (some bytes) e =
    if-holds (Explains codec heap (with_data cause ref)) (ltb (length bytes) 4) (λ short. refl)
      (λ long.
        parse_known-Explains codec heap cause ref bytes (codec.error_by_id (take 4 bytes)) e
          (ground arith))

-- ParseRevert either leaves an error as it is or, if the error carries data, makes a RevertError of
-- it that keeps the error as its cause and holds the four or more bytes that were found in the data;
-- and what it returns it leaves as it is the next time.
pub parse_revert-Explains :
    (codec : RevertCodec) (heap : ℕ → ErrorData) (e : Failure)
    → Explains codec heap e (parse_revert codec heap e)
      × (parse_revert codec heap (parse_revert codec heap e) ≡ parse_revert codec heap e)
unfolding parse_revert
parse_revert-Explains codec heap (reverted e) = (refl, refl)
parse_revert-Explains codec heap (plain e) = (refl, refl)
parse_revert-Explains codec heap (with_data cause ref) =
    let parsed = parse_revert codec heap (with_data cause ref) in
    let explains = parse_bytes-Explains codec heap cause ref (revert_bytes codec heap ref) refl in
    (explains, again parsed explains refl)
  where
    again :
        (f : Failure)
        → Explains codec heap (with_data cause ref) f
        → f ≡ parse_revert codec heap (with_data cause ref)
        → parse_revert codec heap f ≡ f
    again (reverted r) h e = refl
    again (plain n) h e = cc
    again (with_data c r) h e = ap (parse_revert codec heap) h ∙ sym e
