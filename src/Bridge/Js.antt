-- ===== src/Bridge/Js.antt =====
-- The JavaScript values that src/fuse_bridge.cc and src/napi_helpers.cc read and make, as far as
-- Node-API shows them. Exceptions are off (NODE_ADDON_API without C++ exceptions): a handler that throws
-- gives the empty value, and a conversion that fails gives 0 or "" and leaves an exception pending,
-- after which `Has` is false and `Get` gives the empty value. Getters and proxies are not modelled.
use Prim.Native.String.{String}
use text.Mathlib.Text.{◌==◌ as str_eq}
use fuse_native.Base.{
  ℕ, ◌-◌, ◌%◌, ◌^◌, Bool, true, false, not, ◌==◌, List, [], ◌∷◌, Option, none, some, ltb,
  if◌then◌else◌, take, drop,
}
use fuse_native.Base.Int.{ℤ, pos, negsuc}

-- What the source reads of a double: whether it is finite, whether it is below zero, whether it is
-- neither 0 nor NaN, its value where it is a whole number from 0 below 2 ^ 64, and its conversions to machine integers.
pub record Number : Type 0 where
  pub finite : Bool
  pub negative : Bool
  pub truthy : Bool
  pub whole : Option ℕ
  pub int32_value : ℤ
  pub uint32_value : ℕ
  pub int64_value : ℤ

-- A bigint is its value as a uint64_t and as an int64_t, where these lose nothing. A typed array is
-- whether it is a Buffer, the bytes of its ArrayBuffer, its offset and its length.
mutual
  pub data JsValue : Type 0 where
    empty undefined null function : JsValue
    boolean : Bool → JsValue
    number : Number → JsValue
    bigint : Option ℕ → Option ℤ → JsValue
    string : String → JsValue
    array : Values → JsValue
    array_buffer : List ℕ → JsValue
    typed_array : Bool → List ℕ → ℕ → ℕ → JsValue
    object : Fields → JsValue

  pub data Values : Type 0 where
    nil : Values
    cons : JsValue → Values → Values

  pub data Fields : Type 0 where
    end : Fields
    field : String → JsValue → Fields → Fields

-- (int32_t) of a 32-bit word, and the low 32 bits of a natural number.
abbrev pub to_i32 : ℕ → ℤ
to_i32 w = if ltb w (2 ^ 31) then pos w else negsuc (2 ^ 32 - 1 - w)

-- Number::New of a number that a double holds exactly.
abbrev pub of_nat : ℕ → Number
of_nat n = record {
  finite = true;
  negative = false;
  truthy = not (n == 0);
  whole = if ltb n (2 ^ 64) then some n else none;
  int32_value = to_i32 (n % 2 ^ 32);
  uint32_value = n % 2 ^ 32;
  int64_value = if ltb n (2 ^ 63) then pos n else pos (2 ^ 63 - 1);
}

abbrev pub of_int : ℤ → Number
of_int (pos n) = of_nat n
of_int (negsuc n) = record {
  finite = true;
  negative = true;
  truthy = true;
  whole = none;
  int32_value = to_i32 (2 ^ 32 - 1 - n % 2 ^ 32);
  uint32_value = 2 ^ 32 - 1 - n % 2 ^ 32;
  int64_value = if ltb n (2 ^ 63) then negsuc n else negsuc (2 ^ 63 - 1);
}

-- `CreateBigUint64` and `CreateBigInt64`.
abbrev pub big_u64 : ℕ → JsValue
big_u64 n = bigint (some n) (if ltb n (2 ^ 63) then some (pos n) else none)

abbrev pub big_i64 : ℤ → JsValue
big_i64 (pos n) = bigint (some n) (some (pos n))
big_i64 (negsuc n) = bigint none (some (negsuc n))

abbrev pub is_object : JsValue → Bool
is_object (array vs) = true
is_object (array_buffer bytes) = true
is_object (typed_array is_buffer bytes offset size) = true
is_object (object fs) = true
is_object function = true
is_object _ = false

abbrev pub is_number : JsValue → Bool
is_number (number n) = true
is_number _ = false

-- The conversion to a boolean.
abbrev pub to_boolean : JsValue → Bool
to_boolean empty = false
to_boolean undefined = false
to_boolean null = false
to_boolean (boolean b) = b
to_boolean (number n) = n.truthy
to_boolean (bigint (some u) i) = not (u == 0)
to_boolean (string String.[]) = false
to_boolean _ = true

-- `Has` and `Get` of the keys that the source names, which only plain objects have.
abbrev pub find_field : String → Fields → Option JsValue
find_field key end = none
find_field key (field name v fs) = if str_eq key name then some v else find_field key fs

abbrev pub get_field : String → JsValue → Option JsValue
get_field key (object fs) = find_field key fs
get_field key _ = none

-- A field that is absent is undefined.
abbrev or_undefined : Option JsValue → JsValue
or_undefined none = undefined
or_undefined (some v) = v

abbrev pub get : String → JsValue → JsValue
get key v = or_undefined (get_field key v)

-- `SafeGetBigIntU64` and `SafeGetBigInt64`.
abbrev pub safe_get_big_u64 : JsValue → Option ℕ
safe_get_big_u64 (bigint u i) = u
safe_get_big_u64 _ = none

abbrev safe_get_big_i64 : JsValue → Option ℤ
safe_get_big_i64 (bigint u i) = i
safe_get_big_i64 _ = none

-- The bytes that a typed array shows.
abbrev pub view : List ℕ → ℕ → ℕ → List ℕ
view bytes offset size = take size (drop offset bytes)

-- The elements of an array, in order.
abbrev pub elements : Values → List JsValue
elements nil = []
elements (cons v vs) = v ∷ elements vs

-- An object with these fields set, in order.
abbrev to_fields : List (String × JsValue) → Fields
to_fields [] = end
to_fields ((key, v) ∷ fs) = field key v (to_fields fs)

abbrev pub object_of : List (String × JsValue) → JsValue
object_of fs = object (to_fields fs)
