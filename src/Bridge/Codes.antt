-- ===== src/Bridge/Codes.antt =====
-- The error codes that src/fuse_bridge.cc replies with for what a handler rejects with.
use Prim.Native.String.{String}
use mathlib.Core.List.{Perm}
use text.Mathlib.Text.{◌==◌ as str_eq}
use fuse_native.Base.{
  zero, suc, ℕ, ◌==◌, ◌≡◌, inl, inr, refl, ap, ◌∙◌, List, none, some, arith, if◌then◌else◌,
  Bool-cases,
}
use fuse_native.Base.Int.{ℤ, pos, negsuc}
use fuse_native.Errno.{errno_to_string_map, errno_to_string, is_valid_errno, string_to_errno, eio}
use fuse_native.Errno.RoundTrip.{zero_invalid, string_to_errno-errno_to_string}
use fuse_native.Bridge.Js.{JsValue, string, object, Fields, end, field, find_field}
use fuse_native.Bridge.Errors.{abs, named, extract_errno, extract_field, error_value}

extract_field-step :
    (order : List (ℕ × String)) (key : String) (v : JsValue) (fs : Fields) (other : ℤ)
    → extract_field order (field key v fs) other
      ≡ (if str_eq "errno" key then extract_errno order v else extract_field order fs other)
unfolding extract_errno
extract_field-step order key v fs other = refl

extract_field-end : (order : List (ℕ × String)) (other : ℤ) → extract_field order end other ≡ other
unfolding extract_errno
extract_field-end order other = refl

extract_errno-object :
    (order : List (ℕ × String)) (fs : Fields)
    → extract_errno order (object fs) ≡ extract_field order fs (named order (find_field "code" fs))
unfolding extract_errno
extract_errno-object order fs = refl

-- Without an errno the name decides.
extract_field-none :
    (order : List (ℕ × String)) (fs : Fields) (other : ℤ)
    → find_field "errno" fs ≡ none
    → extract_field order fs other ≡ other
extract_field-none order end other h = extract_field-end order other
extract_field-none order (field key v fs) other h = elim (Bool-cases (str_eq "errno" key)) [
  | inl e ↦ cc (rw e at h)
  | inr e ↦
      extract_field-step order key v fs other ∙ rw e (extract_field-none order fs other (rw e at h))
]

extract_errno-code :
    (order : List (ℕ × String)) (fs : Fields) (code : String)
    → find_field "errno" fs ≡ none
    → find_field "code" fs ≡ some (string code)
    → extract_errno order (object fs) ≡ named order (some (string code))
extract_errno-code order fs code no_errno e =
    extract_errno-object order fs
    ∙ extract_field-none order fs (named order (find_field "code" fs)) no_errno
    ∙ ap (named order) e

-- The code 0 is in no table.
code_of_name :
    (mapped : ℕ) (err : ℤ)
    → pos mapped ≡ (if is_valid_errno err then err else pos 0)
    → pos (
        if abs (if mapped == 0 then pos eio else pos mapped) == 0
        then eio
        else abs (if mapped == 0 then pos eio else pos mapped))
      ≡ (if is_valid_errno err then err else pos eio)
code_of_name mapped (pos zero) e = ground (arith, zero_invalid)
code_of_name mapped (pos (suc n)) e = ground arith
code_of_name mapped (negsuc n) e = ground arith

-- Where a handler rejects with an object that has no `errno` and has the name of an error code as `code`,
-- the reply has that code if it is one of the table, and EIO if it is not, for every order in which the
-- table may be walked.
error_value-errno_to_string :
    (order : List (ℕ × String)) (fs : Fields) (err : ℤ)
    → Perm order errno_to_string_map
    → find_field "errno" fs ≡ none
    → find_field "code" fs ≡ some (string (errno_to_string err))
    → pos (error_value order (object fs)) ≡ (if is_valid_errno err then err else pos eio)
unfolding error_value
error_value-errno_to_string order fs err walk no_errno code =
    rw (extract_errno-code order fs (errno_to_string err) no_errno code, error_value)
      (code_of_name (string_to_errno order (errno_to_string err)) err
        (string_to_errno-errno_to_string order err walk))
