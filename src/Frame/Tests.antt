-- ===== src/Frame/Tests.antt =====
-- Concrete frames through the codec, the preparation and the signing of pkg/frame.
use takapu_protocol_sdk.Prelude.{
  ℕ, ◌≡◌, ◌≤◌, ◌<◌, ◌+◌, ◌↔◌, refl, arith, true, false, List, [], ◌∷◌, ◌++◌, ok, none, some, pos,
  length, replicate, get_or, set, take, drop,
}
use takapu_protocol_sdk.Decimal.Digits.{to_string, print_digits}
use takapu_protocol_sdk.Decimal.Print.{decimal, point_in, trim_right, pad_left}
use takapu_protocol_sdk.Wire.{PriceLevel, MarketFrame, AddressText}
use takapu_protocol_sdk.Frame.Words.{Word, zero_word, get16, get24, get32}
use takapu_protocol_sdk.Frame.Types.{CompactFrame, PairParams, FrameSpec, validate_pair}
use takapu_protocol_sdk.Frame.Codec.{
  encode_compact_frame, decode_compact_frame, encode_levels, decode_levels, encode_levels_loop,
  validate_compact_frame, encode_header, put_slot, decode_header, decode_levels_loop, slot,
}
use takapu_protocol_sdk.Frame.Codec.Slots.{IsWord}
use takapu_protocol_sdk.Frame.Codec.HeaderWord.{InRange}
use takapu_protocol_sdk.Frame.Codec.RoundTrip.{
  IsQuotable, decoded_of, respecify, encode_compact_frame_iff,
  decode_compact_frame-encode_compact_frame, encode_compact_frame-decode_compact_frame,
}
use takapu_protocol_sdk.Frame.Signing.{
  Crypto, SignedFrame, Signer, Context, set_bytes, recovery_bit, normalize_with,
  normalize_signature, validate_domain, digest, signing_digest, check_recovered, verify_signature,
  check_context, sign_with, sign_frame,
}
use takapu_protocol_sdk.Frame.Signing.Laws.{normalize_signature-form, IsSigned, sign_frame-IsSigned}
use takapu_protocol_sdk.Frame.Prepare.{
  human_level, human_levels, prepare_signing_payload, wire_of, prepare, build_and_sign,
}
use takapu_protocol_sdk.Frame.Prepare.Readable.{ReadsBack, human_levels-ReadsBack}
use takapu_protocol_sdk.Frame.Prepare.Signed.{domain_of, words_of, build_and_sign-verifies}

abbrev pub weth_usdc : PairParams
weth_usdc = record {
  pair_id = 7;
  base_token = 0x11;
  quote_token = 0x22;
  base_decimals = 18;
  quote_decimals = 6;
  price_tick_size = some (pos 1_000_000);
  lot_size = some (pos 1_000_000_000);
}

abbrev pub book : FrameSpec
book = record {
  chain_id = 1;
  protocol = 0x33;
  maker = 0x44;
  pair = weth_usdc;
  base_tick = 70_000;
  bids = record { offset = 0; qty_lots = 5 } ∷ record { offset = 300; qty_lots = 0x012345 } ∷ [];
  asks = record { offset = 2; qty_lots = 9 } ∷ [];
  updated_at = 1_700_000_000;
  major_version = 3;
  minor_version = 4;
  codec_version = 1;
}

abbrev pub book_header : Word
book_header =
    0 ∷ 0 ∷ 0 ∷ 0 ∷ 0 ∷ 0 ∷ 0 ∷ 0 ∷ 0 ∷ 0 ∷ 0 ∷ 0 ∷ 0 ∷ 0 ∷ 0 ∷ 1 ∷ 0 ∷ 0 ∷ 0 ∷ 7 ∷ 1 ∷ 17 ∷ 112 ∷ 4
    ∷ 0 ∷ 0 ∷ 0 ∷ 3 ∷ 0x65 ∷ 0x53 ∷ 0xf1 ∷ 0x00 ∷ []

abbrev pub book_frame : CompactFrame
book_frame = record {
  header = book_header;
  bid_levels =
      0 ∷ 0 ∷ 0 ∷ 0 ∷ 0 ∷ 0 ∷ 0 ∷ 0 ∷ 0 ∷ 0 ∷ 0 ∷ 0 ∷ 0 ∷ 0 ∷ 0 ∷ 0 ∷ 0 ∷ 0 ∷ 0 ∷ 0 ∷ 0 ∷ 1 ∷ 44 ∷ 1
      ∷ 0x23 ∷ 0x45 ∷ 0 ∷ 0 ∷ 0 ∷ 0 ∷ 0 ∷ 5 ∷ [];
  ask_levels =
      0 ∷ 0 ∷ 0 ∷ 0 ∷ 0 ∷ 0 ∷ 0 ∷ 0 ∷ 0 ∷ 0 ∷ 0 ∷ 0 ∷ 0 ∷ 0 ∷ 0 ∷ 0 ∷ 0 ∷ 0 ∷ 0 ∷ 0 ∷ 0 ∷ 0 ∷ 0 ∷ 0
      ∷ 0 ∷ 0 ∷ 0 ∷ 0 ∷ 2 ∷ 0 ∷ 0 ∷ 9 ∷ [];
}

encode_book : encode_compact_frame book ≡ ok book_frame
unfolding encode_compact_frame encode_levels encode_levels_loop validate_compact_frame encode_header
    put_slot decode_compact_frame decode_header get16 get32 get24 decode_levels decode_levels_loop
    slot
encode_book = refl

decode_book : decode_compact_frame book_frame ≡ ok (decoded_of book)
unfolding decode_compact_frame decode_header get16 get32 get24 decode_levels decode_levels_loop slot
decode_book = refl

pub book-InRange : InRange book
book-InRange = omega arith

decode_compact_frame-encode_compact_frame_example :
    (decode_compact_frame book_frame ≡ ok (decoded_of book))
    × IsWord book_frame.header
    × IsWord book_frame.bid_levels
    × IsWord book_frame.ask_levels
decode_compact_frame-encode_compact_frame_example =
    decode_compact_frame-encode_compact_frame book book_frame book-InRange encode_book

encode_compact_frame-decode_compact_frame_example :
    encode_compact_frame (respecify book (decoded_of book)) ≡ ok book_frame
encode_compact_frame-decode_compact_frame_example =
    encode_compact_frame-decode_compact_frame book book_frame (decoded_of book)
      decode_compact_frame-encode_compact_frame_example.1 (omega arith) (omega arith) decode_book

encode_compact_frame_iff_example :
    ((f : CompactFrame) × (encode_compact_frame book ≡ ok f)) ↔ IsQuotable book
encode_compact_frame_iff_example = encode_compact_frame_iff book book-InRange

-- A stand-in for the hash and the curve, which accepts every signature as the one of account 5.
abbrev pub crypto : Crypto
crypto = record {
  keccak = λ parts. zero_word;
  are_signature_values = λ v r s. true;
  recover = λ d sig. some 5;
}

abbrev pub text : AddressText
text = record {
  is_hex_address = λ t. true;
  hex_to_address = λ t. get_or t 0 0;
  address_to_hex = λ a. a ∷ [];
}

abbrev pub raw_signature : List ℕ
raw_signature = replicate 64 1 ++ 0 ∷ []

abbrev pub normal_signature : List ℕ
normal_signature = replicate 64 1 ++ 27 ∷ []

abbrev pub signer : Signer
signer = record { address = 5; sign = λ d. some raw_signature }

abbrev pub context : Context
context = record { before = none; after = none }

abbrev pub readable_bids : List PriceLevel
readable_bids =
    record {
      price = b'7' ∷ b'0' ∷ b'0' ∷ b'0' ∷ b'0' ∷ [];
      amount = b'0' ∷ b'.' ∷ b'0' ∷ b'0' ∷ b'0' ∷ b'0' ∷ b'0' ∷ b'0' ∷ b'0' ∷ b'0' ∷ b'5' ∷ [];
    }
    ∷ record {
      price = b'6' ∷ b'9' ∷ b'7' ∷ b'0' ∷ b'0' ∷ [];
      amount = b'0' ∷ b'.' ∷ b'0' ∷ b'0' ∷ b'0' ∷ b'0' ∷ b'7' ∷ b'4' ∷ b'5' ∷ b'6' ∷ b'5' ∷ [];
    }
    ∷ []

abbrev pub readable_asks : List PriceLevel
readable_asks =
    record {
      price = b'7' ∷ b'0' ∷ b'0' ∷ b'0' ∷ b'2' ∷ [];
      amount = b'0' ∷ b'.' ∷ b'0' ∷ b'0' ∷ b'0' ∷ b'0' ∷ b'0' ∷ b'0' ∷ b'0' ∷ b'0' ∷ b'9' ∷ [];
    }
    ∷ []

abbrev pub signed_book : MarketFrame
signed_book = record {
  updated_at = 1_700_000_000;
  pair =
      some (record { chain_id = 1; pair_id = 7; base_token = 0x11 ∷ []; quote_token = 0x22 ∷ [] });
  bids = readable_bids;
  asks = readable_asks;
  frame = some (words_of book_frame);
  signature = normal_signature;
  maker_addr = 0x44 ∷ [];
}

abbrev pub signed_frame : SignedFrame
signed_frame = record { frame = book_frame; maker = 0x44; signature = normal_signature }

normalize_raw : normalize_signature crypto raw_signature ≡ ok (replicate 64 1 ++ 27 ∷ [])
unfolding normalize_signature normalize_with recovery_bit set_bytes
normalize_raw = refl

bids_readable : human_levels 70_000 true weth_usdc book.bids ≡ ok readable_bids
unfolding human_levels human_level decimal point_in trim_right pad_left to_string print_digits
bids_readable = refl

pub sign_book :
    sign_frame crypto (some context) (domain_of book) 0x44 book_frame (some signer)
    ≡ ok signed_frame
unfolding sign_frame check_context sign_with verify_signature signing_digest validate_domain digest
    check_recovered normalize_signature normalize_with recovery_bit set_bytes validate_compact_frame
    decode_compact_frame decode_header get16 get32 get24 decode_levels decode_levels_loop slot
sign_book = refl

pub build_book : build_and_sign crypto text (some context) book (some signer) ≡ ok signed_book
unfolding build_and_sign prepare prepare_signing_payload validate_pair wire_of human_levels
    human_level decimal point_in trim_right pad_left to_string print_digits sign_frame check_context
    sign_with verify_signature signing_digest validate_domain digest check_recovered
    normalize_signature normalize_with recovery_bit set_bytes encode_compact_frame encode_levels
    encode_levels_loop validate_compact_frame encode_header put_slot decode_compact_frame
    decode_header get16 get32 get24 decode_levels decode_levels_loop slot
build_book = refl

valid_pair : validate_pair weth_usdc ≡ ok tt
unfolding validate_pair
valid_pair = refl

normalize_signature-form_example :
    (v : ℕ) × (v ≤ 1)
    × (length normal_signature ≡ 65)
    × (normal_signature ≡ set raw_signature 64 (v + 27))
    × (crypto.are_signature_values v
          (set_bytes 0 (take 32 raw_signature))
          (set_bytes 0 (take 32 (drop 32 raw_signature)))
        ≡ true)
normalize_signature-form_example =
    normalize_signature-form crypto raw_signature normal_signature normalize_raw

sign_frame-IsSigned_example :
    (signed_frame.frame ≡ book_frame)
    × (signed_frame.maker ≡ 0x44)
    × (0 < signer.address)
    × IsSigned crypto (domain_of book) signed_frame signer.address
sign_frame-IsSigned_example =
    sign_frame-IsSigned crypto (some context) (domain_of book) 0x44 book_frame signer signed_frame
      sign_book

human_levels-ReadsBack_example : ReadsBack 70_000 true weth_usdc book.bids readable_bids
human_levels-ReadsBack_example =
    human_levels-ReadsBack 70_000 true weth_usdc book.bids readable_bids valid_pair (omega arith)
      bids_readable

build_and_sign-verifies_example :
    (f : CompactFrame) × (encode_compact_frame book ≡ ok f)
    × (signed_book.frame ≡ some (words_of f))
    × (human_levels 70_000 true weth_usdc book.bids ≡ ok readable_bids)
    × (human_levels 70_000 false weth_usdc book.asks ≡ ok readable_asks)
    × (verify_signature crypto
          (domain_of book)
          (record { frame = f; maker = 0x44; signature = signed_book.signature })
          5
        ≡ ok tt)
build_and_sign-verifies_example =
    build_and_sign-verifies crypto text (some context) book signer signed_book build_book
