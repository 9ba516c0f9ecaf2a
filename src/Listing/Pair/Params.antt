-- ===== src/Listing/Pair/Params.antt =====
-- What ListPair of pkg/listing/pairs.go returns, for FrameParams of pair_params.go.
use takapu_protocol_sdk.Prelude.{
  ℕ, ◌+◌, ◌-◌, ◌*◌, ◌^◌, ◌≤◌, ◌<◌, ◌≡◌, refl, arith, [], ◌∷◌, true, false, not, ◌||◌, leb, ◌==◌,
  length, Option, none, some, pos, out_of_range, Result, ok, fail_if, fail_if-eq-ok, >>=-eq-ok,
  ok-injective_eq, ||-eq-false, if-holds,
}
use mathlib.Core.Path.{subst}
use takapu_protocol_sdk.Decimal.Digits.{Text, all_digits, read_digits, set_string}
use takapu_protocol_sdk.Wire.{AddressText}
use takapu_protocol_sdk.Frame.Types.{PairParams, validate_pair}
use takapu_protocol_sdk.Listing.Types.{
  Field, price_tick_size, lot_size, pair_id, chain_id, base_token, quote_token, base_symbol,
  quote_symbol, base_decimals, quote_decimals, active, gray, ListingError, chain_id_range,
  pair_id_range, tokens, input_pair_id, detail_mismatch, Raw, Object, Json, Pair,
}
use takapu_protocol_sdk.Listing.Sizes.{
  trim_left_zeros, parse_digits, parse_raw_size, params_with, frame_params,
}
use takapu_protocol_sdk.Listing.Pair.{
  required, address_field, positive_uint128_string, decode_tax, identity_of, details_of, flags_of,
  pair_of, pair_of_object, decode_pair, validate_chain_id, list_pair,
}

read_digits-grows : (acc : ℕ) (ds : Text) → acc ≤ read_digits acc ds
unfolding read_digits
read_digits-grows acc [] = omega arith
read_digits-grows acc (d ∷ ds) = omega (arith, read_digits-grows (acc * 10 + (d - 48)) ds)

-- Digits without a leading zero are a positive number.
leading_positive :
    (d : ℕ) (ds : Text) → all_digits (d ∷ ds) ≡ true → (d == 48) ≡ false → 0 < set_string (d ∷ ds)
unfolding all_digits read_digits
leading_positive d ds h other =
    let grows = read_digits-grows (0 * 10 + (d - 48)) ds in
    let least : 48 ≤ d = ground arith in
    let apart : 0 < d - 48 = ground arith in omega (arith, grows, apart)

trimmed_positive :
    (ds : Text)
    → all_digits ds ≡ true
    → 0 < length (trim_left_zeros ds)
    → 0 < set_string (trim_left_zeros ds)
unfolding all_digits
trimmed_positive [] h p = absurd (omega arith)
trimmed_positive (d ∷ ds) h p =
    let rest : all_digits ds ≡ true = ground arith in
    if-holds (λ t. 0 < length t → 0 < set_string t) (d == 48)
      (λ zero_first. trimmed_positive ds rest) (λ other some_left. leading_positive d ds h other) p

parse_raw_size-bounds :
    (value : Text) (name : Field) (n : ℕ)
    → parse_raw_size value name ≡ ok n
    → (0 < n) × (n < 2 ^ 128)
unfolding parse_raw_size parse_digits
parse_raw_size-bounds value name n h =
    let digits : all_digits value ≡ true = ground arith in
    let some_left : 0 < length (trim_left_zeros value) = ground arith in
    let same : set_string (trim_left_zeros value) ≡ n = ground arith in
    let small : set_string (trim_left_zeros value) < 2 ^ 128 = ground arith in
    let positive = trimmed_positive value digits some_left in (omega arith, omega arith)

sized :
    (json : Json) (fields : Object) (name : Field) (value : Text)
    → positive_uint128_string json fields name ≡ ok value
    → (n : ℕ) × (parse_raw_size value name ≡ ok n)
unfolding positive_uint128_string
sized json fields name value h =
    let (v, e1, h1) = >>=-eq-ok (required json json.unmarshal_string fields name) _ h in
    let (n, e2, h2) = >>=-eq-ok (parse_raw_size v name) _ h1 in
    (n, subst (λ w. parse_raw_size w name ≡ ok n) (ok-injective_eq h2) e2)

-- A pair whose tokens differ and whose sizes can be read.
abbrev pub IsListed : Pair → Type 0
IsListed p =
    ((p.base_token == 0 || p.quote_token == 0 || p.base_token == p.quote_token) ≡ false)
    × ((n : ℕ) × (parse_raw_size p.price_tick_size price_tick_size ≡ ok n))
    × ((n : ℕ) × (parse_raw_size p.lot_size lot_size ≡ ok n))

-- Two tokens.
abbrev HasTokens : Pair → Type 0
HasTokens p = (p.base_token == 0 || p.quote_token == 0 || p.base_token == p.quote_token) ≡ false

identity_of-HasTokens :
    (json : Json) (text : AddressText) (fields : Object) (p : Pair)
    → identity_of json text fields ≡ ok p
    → HasTokens p
unfolding identity_of
identity_of-HasTokens json text fields p h =
    let (chain, e1, h1) =
      >>=-eq-ok (required json (json.unmarshal_number 64) fields chain_id) _ h in
    let (u, e2, h2) = >>=-eq-ok (fail_if (chain == 0 || leb (2 ^ 63) chain) chain_id_range) _ h1 in
    let (id, e3, h3) = >>=-eq-ok (required json (json.unmarshal_number 32) fields pair_id) _ h2 in
    let (v, e4, h4) = >>=-eq-ok (fail_if (leb (2 ^ 31) id) pair_id_range) _ h3 in
    let (base, e5, h5) = >>=-eq-ok (address_field json text fields base_token) _ h4 in
    let (quote, e6, h6) = >>=-eq-ok (address_field json text fields quote_token) _ h5 in
    let (w, e7, h7) = >>=-eq-ok (fail_if (base == 0 || quote == 0 || base == quote) tokens) _ h6 in
    subst HasTokens (ok-injective_eq h7)
      (fail_if-eq-ok (base == 0 || quote == 0 || base == quote) tokens e7)

details_of-IsListed :
    (json : Json) (fields : Object) (named p : Pair)
    → HasTokens named
    → details_of json fields named ≡ ok p
    → IsListed p
unfolding details_of
details_of-IsListed json fields named p apart h =
    let (b, e1, h1) = >>=-eq-ok (required json json.unmarshal_string fields base_symbol) _ h in
    let (q, e2, h2) = >>=-eq-ok (required json json.unmarshal_string fields quote_symbol) _ h1 in
    let (bd, e3, h3) =
      >>=-eq-ok (required json (json.unmarshal_number 8) fields base_decimals) _ h2 in
    let (qd, e4, h4) =
      >>=-eq-ok (required json (json.unmarshal_number 8) fields quote_decimals) _ h3 in
    let (tick, e5, h5) = >>=-eq-ok (positive_uint128_string json fields price_tick_size) _ h4 in
    let (lot, e6, h6) = >>=-eq-ok (positive_uint128_string json fields lot_size) _ h5 in
    subst IsListed (ok-injective_eq h6)
      (apart, sized json fields price_tick_size tick e5, sized json fields lot_size lot e6)

flags_of-IsListed :
    (json : Json) (text : AddressText) (fields : Object) (known p : Pair)
    → IsListed known
    → flags_of json text fields known ≡ ok p
    → IsListed p
unfolding flags_of
flags_of-IsListed json text fields known p listed h =
    let (fee, e1, h1) =
      >>=-eq-ok (decode_tax json text known.base_token known.quote_token fields) _ h in
    let (a, e2, h2) = >>=-eq-ok (required json json.unmarshal_bool fields active) _ h1 in
    let (g, e3, h3) = >>=-eq-ok (required json json.unmarshal_bool fields gray) _ h2 in
    subst IsListed (ok-injective_eq h3) listed

pair_of-IsListed :
    (json : Json) (text : AddressText) (fields : Object) (p : Pair)
    → pair_of json text fields ≡ ok p
    → IsListed p
unfolding pair_of
pair_of-IsListed json text fields p h =
    let (named, e1, h1) = >>=-eq-ok (identity_of json text fields) _ h in
    let (known, e2, h2) = >>=-eq-ok (details_of json fields named) _ h1 in
    flags_of-IsListed json text fields known p
      (details_of-IsListed json fields named known (identity_of-HasTokens json text fields named e1)
        e2)
      h2

object-IsListed :
    (json : Json) (text : AddressText) (o : Option (Option Object)) (p : Pair)
    → pair_of_object json text o ≡ ok p
    → IsListed p
object-IsListed json text none p h = cc
object-IsListed json text (some none) p h = cc
object-IsListed json text (some (some fields)) p h = pair_of-IsListed json text fields p h

decode_pair-IsListed :
    (json : Json) (text : AddressText) (raw : Raw) (p : Pair)
    → decode_pair json text raw ≡ ok p
    → IsListed p
unfolding decode_pair
decode_pair-IsListed json text raw p h = object-IsListed json text (json.unmarshal_object raw) p h

positive_in_range : (n : ℕ) → 0 < n → n < 2 ^ 128 → out_of_range 128 true (some (pos n)) ≡ false
positive_in_range n p h = ground arith

params_valid :
    (p : Pair) (tick lot : ℕ)
    → 0 < p.pair_id
    → (p.base_token == 0 || p.quote_token == 0 || p.base_token == p.quote_token) ≡ false
    → (0 < tick) × (tick < 2 ^ 128)
    → (0 < lot) × (lot < 2 ^ 128)
    → validate_pair (params_with p tick lot) ≡ ok tt
unfolding validate_pair
params_valid p tick lot id apart (t1, t2) (l1, l2) =
    let some_id : (p.pair_id == 0) ≡ false = ground arith in
    rw (some_id, apart, positive_in_range tick t1 t2, positive_in_range lot l1 l2)

IsListed-frame_params :
    (p : Pair)
    → 0 < p.pair_id
    → IsListed p
    → (params : PairParams) × (frame_params p ≡ ok params)
      × (params.pair_id ≡ p.pair_id)
      × (validate_pair params ≡ ok tt)
unfolding frame_params
IsListed-frame_params p id (apart, (tick, et), (lot, el)) =
    let valid =
      params_valid p tick lot id apart
        (parse_raw_size-bounds p.price_tick_size price_tick_size tick et)
        (parse_raw_size-bounds p.lot_size lot_size lot el) in
    (params_with p tick lot, rw (et, el, valid), refl, valid)

-- A pair that ListPair returns is the one that was asked for, and FrameParams reads it: its raw sizes
-- are positive and below 2^128, so that the parameters which FrameParams returns for it are those of
-- a pair that ValidatePair of pkg/frame accepts, under the id that was asked for.
pub list_pair-frame_params :
    (json : Json) (text : AddressText) (get : ℕ → ℕ → Result ListingError Raw) (chain id : ℕ)
    (p : Pair)
    → list_pair json text get chain id ≡ ok p
    → (p.chain_id ≡ chain)
      × (p.pair_id ≡ id)
      × ((params : PairParams) × (frame_params p ≡ ok params)
          × (params.pair_id ≡ p.pair_id)
          × (validate_pair params ≡ ok tt))
unfolding list_pair
list_pair-frame_params json text get chain id p h =
    let (u, e1, h1) = >>=-eq-ok (validate_chain_id chain) _ h in
    let (v, e2, h2) = >>=-eq-ok (fail_if (id == 0 || leb (2 ^ 31) id) input_pair_id) _ h1 in
    let (raw, e3, h3) = >>=-eq-ok (get chain id) _ h2 in
    let (pair, e4, h4) = >>=-eq-ok (decode_pair json text raw) _ h3 in
    let (w, e5, h5) =
      >>=-eq-ok (fail_if (not (pair.chain_id == chain) || not (pair.pair_id == id)) detail_mismatch)
        _ h4 in
    let (same_chain, same_id) =
      ||-eq-false (not (pair.chain_id == chain)) (not (pair.pair_id == id)) (
        fail_if-eq-ok (not (pair.chain_id == chain) || not (pair.pair_id == id)) detail_mismatch
          e5) in
    let chains : pair.chain_id ≡ chain = ground (arith, same_chain) in
    let ids : pair.pair_id ≡ id = ground (arith, same_id) in
    let some_id : 0 < pair.pair_id = ground (arith, ids, e2) in
    subst
      (λ (q : Pair).
        (q.chain_id ≡ chain)
        × (q.pair_id ≡ id)
        × ((params : PairParams) × (frame_params q ≡ ok params)
            × (params.pair_id ≡ q.pair_id)
            × (validate_pair params ≡ ok tt)))
      (ok-injective_eq h5)
      (chains, ids, IsListed-frame_params pair some_id (decode_pair-IsListed json text raw pair e4))
