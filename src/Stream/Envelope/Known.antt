-- ===== src/Stream/Envelope/Known.antt =====
-- hasUnknownFields of internal/wire.go.
use takapu_protocol_sdk.Prelude.{◌≡◌, ◌↔◌, refl, arith, false, [], ◌∷◌, ||-eq-false}
use takapu_protocol_sdk.Stream.Envelope.{
  Message, message, Fields, bare, scalar, table, nested, repeated, Messages, bare_list, one_more,
  has_unknown_fields, has_unknown_in, has_unknown_list,
}

-- A message without unknown bytes, whose nested and repeated messages have none either.
mutual
  pub data IsKnown : Message → Type 0 where
    known : (fields : Fields) → AreKnown fields → IsKnown (message [] fields)

  pub data AreKnown : Fields → Type 0 where
    none_left : AreKnown bare
    by_scalar : (fields : Fields) → AreKnown fields → AreKnown (scalar fields)
    by_table : (fields : Fields) → AreKnown fields → AreKnown (table fields)
    by_nested :
        (m : Message) (fields : Fields) → IsKnown m → AreKnown fields → AreKnown (nested m fields)
    by_repeated :
        (ms : Messages) (fields : Fields)
        → AllKnown ms
        → AreKnown fields
        → AreKnown (repeated ms fields)

  pub data AllKnown : Messages → Type 0 where
    all_done : AllKnown bare_list
    and_one : (m : Message) (ms : Messages) → IsKnown m → AllKnown ms → AllKnown (one_more m ms)

mutual
  unfolding has_unknown_fields has_unknown_in has_unknown_list

  message-IsKnown : (m : Message) → has_unknown_fields m ≡ false → IsKnown m
  message-IsKnown (message [] fields) h = known fields (fields-AreKnown fields h)
  message-IsKnown (message (b ∷ bs) fields) h = absurd (ground arith)

  fields-AreKnown : (fields : Fields) → has_unknown_in fields ≡ false → AreKnown fields
  fields-AreKnown bare h = none_left
  fields-AreKnown (scalar fields) h = by_scalar fields (fields-AreKnown fields h)
  fields-AreKnown (table fields) h = by_table fields (fields-AreKnown fields h)
  fields-AreKnown (nested m fields) h =
      let (one, rest) = ||-eq-false (has_unknown_fields m) (has_unknown_in fields) h in
      by_nested m fields (message-IsKnown m one) (fields-AreKnown fields rest)
  fields-AreKnown (repeated ms fields) h =
      let (one, rest) = ||-eq-false (has_unknown_list ms) (has_unknown_in fields) h in
      by_repeated ms fields (messages-AllKnown ms one) (fields-AreKnown fields rest)

  messages-AllKnown : (ms : Messages) → has_unknown_list ms ≡ false → AllKnown ms
  messages-AllKnown bare_list h = all_done
  messages-AllKnown (one_more m ms) h =
      let (one, rest) = ||-eq-false (has_unknown_fields m) (has_unknown_list ms) h in
      and_one m ms (message-IsKnown m one) (messages-AllKnown ms rest)

mutual
  unfolding has_unknown_fields has_unknown_in has_unknown_list

  IsKnown-has_unknown_fields : (m : Message) → IsKnown m → has_unknown_fields m ≡ false
  IsKnown-has_unknown_fields _ (known fields h) = AreKnown-has_unknown_in fields h

  AreKnown-has_unknown_in : (fields : Fields) → AreKnown fields → has_unknown_in fields ≡ false
  AreKnown-has_unknown_in _ none_left = refl
  AreKnown-has_unknown_in _ (by_scalar fields h) = AreKnown-has_unknown_in fields h
  AreKnown-has_unknown_in _ (by_table fields h) = AreKnown-has_unknown_in fields h
  AreKnown-has_unknown_in _ (by_nested m fields one rest) =
      rw (IsKnown-has_unknown_fields m one, AreKnown-has_unknown_in fields rest)
  AreKnown-has_unknown_in _ (by_repeated ms fields one rest) =
      rw (AllKnown-has_unknown_list ms one, AreKnown-has_unknown_in fields rest)

  AllKnown-has_unknown_list : (ms : Messages) → AllKnown ms → has_unknown_list ms ≡ false
  AllKnown-has_unknown_list _ all_done = refl
  AllKnown-has_unknown_list _ (and_one m ms one rest) =
      rw (IsKnown-has_unknown_fields m one, AllKnown-has_unknown_list ms rest)

pub has_unknown_fields_iff : (m : Message) → (has_unknown_fields m ≡ false) ↔ IsKnown m
has_unknown_fields_iff m = (message-IsKnown m, IsKnown-has_unknown_fields m)
