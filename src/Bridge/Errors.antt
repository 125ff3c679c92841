-- ===== src/Bridge/Errors.antt =====
-- src/fuse_bridge.cc: the error code in a value that a handler rejects with.
use Prim.Native.String.{String}
use text.Mathlib.Text.{◌==◌ as str_eq}
use fuse_native.Base.{ℕ, ◌+◌, ◌%◌, ◌^◌, ◌==◌, List, Option, some, if◌then◌else◌}
use fuse_native.Base.Int.{ℤ, pos, pos_part, neg_part}
use fuse_native.Errno.{string_to_errno, eio}
use fuse_native.Bridge.Js.{
  JsValue, number, bigint, string, object, Fields, end, field, find_field, to_i32,
}

-- The size of an integer.
abbrev pub abs : ℤ → ℕ
abs a = pos_part a + neg_part a

-- static_cast<int> of a natural number.
abbrev pub to_int : ℕ → ℤ
to_int n = to_i32 (n % 2 ^ 32)

-- The errno of a `code`: EIO where it is no name of the table, which "" of a conversion that failed is
-- not either.
abbrev pub named : List (ℕ × String) → Option JsValue → ℤ
named order (some (string code)) =
    let mapped = string_to_errno order code in if mapped == 0 then pos eio else pos mapped
named order _ = pos eio

-- `order` is the order in which `string_to_errno` walks its table. A field `errno` decides alone.
unfoldable mutual
  pub extract_errno : List (ℕ × String) → JsValue → ℤ
  extract_errno order (number n) = pos (abs n.int32_value)
  extract_errno order (bigint u (some i)) = to_int (abs i)
  extract_errno order (object fs) = extract_field order fs (named order (find_field "code" fs))
  extract_errno order _ = pos eio

  pub extract_field : List (ℕ × String) → Fields → ℤ → ℤ
  extract_field order end other = other
  extract_field order (field key v fs) other =
      let here = extract_errno order v in
      let later = extract_field order fs other in if str_eq "errno" key then here else later

-- The code that `ReplyWithErrorValue` hands to `ReplyError`, and the one that this replies with.
unfoldable pub error_value : List (ℕ × String) → JsValue → ℕ
error_value order v =
    let errno_code = extract_errno order v in if abs errno_code == 0 then eio else abs errno_code
