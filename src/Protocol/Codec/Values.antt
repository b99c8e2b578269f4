-- ===== src/Protocol/Codec/Values.antt =====
-- JSON values as data, for which a text is the value itself: an instance of the operations and laws
-- that the codec uses.
use smartmic_windows.Prelude.{
  ℕ, ◌^◌, ◌<◌, ◌≡◌, refl, ap, Bool, true, false, ◌&&◌, All, List, [], ◌∷◌, Option, none, some, ltb,
  if◌then◌else◌, lt→ltb, arith,
}
use smartmic_windows.Security.Offers.{same_text}
use smartmic_windows.Protocol.Codec.{Json, JsonLaws, WritableField, all_ascii, lookup}

mutual
  pub data Value : Type 0 where
    number : ℕ → Value
    text : List ℕ → Value
    object : Fields → Value

  pub data Fields : Type 0 where
    no_fields : Fields
    field : List ℕ → Value → Fields → Fields

abbrev pub fields : List (List ℕ × Value) → Fields
fields [] = no_fields
fields ((k, v) ∷ fs) = field k v (fields fs)

abbrev pub find_in : List ℕ → Fields → Option Value
find_in k no_fields = none
find_in k (field k' v fs) = let rest = find_in k fs in if same_text k k' then some v else rest

abbrev pub find : List ℕ → Value → Option Value
find k (number n) = none
find k (text s) = none
find k (object fs) = find_in k fs

abbrev pub is_object : Value → Bool
is_object (object fs) = true
is_object _ = false

abbrev pub is_empty : Value → Bool
is_empty (object no_fields) = true
is_empty _ = false

abbrev pub below : ℕ → Value → Option ℕ
below bound (number n) = if ltb n bound then some n else none
below bound _ = none

abbrev pub string_of : Value → Option (List ℕ)
string_of (text s) = some s
string_of _ = none

-- Of texts it writes only those of ASCII.
abbrev mutual
  pub is_ascii : Value → Bool
  is_ascii (number n) = true
  is_ascii (text s) = all_ascii s
  is_ascii (object fs) = are_ascii fs

  pub are_ascii : Fields → Bool
  are_ascii no_fields = true
  are_ascii (field k v fs) = all_ascii k && is_ascii v && are_ascii fs

abbrev pub values : Json
values = record {
  J = Value;
  T = Value;
  size = λ v. 0;
  parse = some;
  dump = λ v. if is_ascii v then some v else none;
  is_object = is_object;
  is_empty = is_empty;
  find = find;
  get_uint32 = below (2 ^ 32);
  get_uint64 = below (2 ^ 64);
  get_string = string_of;
  number = number;
  text = text;
  object = λ fs. object (fields fs);
  is_utf8 = all_ascii;
  is_writable = is_ascii;
}

find-fields : (k : List ℕ) (fs : List (List ℕ × Value)) → find_in k (fields fs) ≡ lookup k fs
find-fields k [] = refl
find-fields k ((k', v) ∷ fs) =
    ap (λ rest. if same_text k k' then some v else rest) (find-fields k fs)

below-number : (bound n : ℕ) → n < bound → below bound (number n) ≡ some n
below-number bound n h = rw (lt→ltb n bound h) refl

only_empty : (v : Value) → is_object v ≡ true → is_empty v ≡ true → v ≡ object no_fields
only_empty (number n) h e = ground arith
only_empty (text s) h e = ground arith
only_empty (object no_fields) h e = refl
only_empty (object (field k v fs)) h e = ground arith

fields-ascii :
    (fs : List (List ℕ × Value)) → All (WritableField values) fs → are_ascii (fields fs) ≡ true
fields-ascii [] h = refl
fields-ascii ((k, v) ∷ fs) (h, hs) = ground (arith, h, fields-ascii fs hs)

pub values-laws : JsonLaws values
values-laws = record {
  parse-dump = λ v h. (v, rw h refl, refl);
  writable_number = λ n. refl;
  writable_text = λ s h. h;
  writable_object = fields-ascii;
  ascii_is_utf8 = λ s h. h;
  object-is_object = λ fs. refl;
  find-object = find-fields;
  get_uint32-number = below-number (2 ^ 32);
  get_uint64-number = below-number (2 ^ 64);
  get_string-text = λ s. refl;
  empty_object = only_empty;
}
