-- ===== src/Buffers.antt =====
-- src/buffer_bridge.cc: the views, ranges, slices and copies of BufferBridge, and the functions that
-- JavaScript calls. A pointer is `none` where it is null, and else the bytes from it to the end of its
-- block. A slice is the bytes that it shows; that it shares them with its buffer is not modelled.
-- Source and destination of a copy do not overlap, which memcpy wants too.
pub mod Copies
pub mod Ranges
mod Tests
use fuse_native.Base.{
  ℕ, zero, suc, ◌+◌, ◌-◌, ◌*◌, ◌/◌, ◌%◌, ◌^◌, min, Bool, true, false, not, ◌&&◌, Option, none, some,
  List, [], ◌∷◌, ◌++◌, ltb, leb, ◌==◌, if◌then◌else◌, length, take, drop, get_or, set, replicate,
}
use fuse_native.Base.Int.{ℤ, pos, negsuc}
use fuse_native.Bridge.Js.{
  JsValue, undefined, boolean, array_buffer, safe_get_big_u64, big_u64, object_of,
}

abbrev pub size_max : ℕ
size_max = 2 ^ 64 - 1

-- The view of a null pointer has no data.
pub record BufferView : Type 0 where
  pub has_data : Bool
  pub size : ℕ
  pub offset : ℕ

unfoldable pub create_buffer_view : Bool → ℕ → ℕ → ℕ → BufferView
create_buffer_view has_data length offset size =
    let actual_offset = min offset length in
    let max_size = length - actual_offset in
    if not has_data then record { has_data = false; size = 0; offset = 0 } else record {
      has_data = true;
      size = if size == size_max then max_size else min size max_size;
      offset = actual_offset;
    }

-- An ArrayBuffer is `none` where it is empty, and else its length.
unfoldable pub validate_buffer : Option ℕ → ℕ → Bool
validate_buffer none required_size = required_size == 0
validate_buffer (some buffer_size) required_size = leb required_size buffer_size

unfoldable pub validate_buffer_range : Option ℕ → ℕ → ℕ → Bool
validate_buffer_range none offset size = (offset == 0) && (size == 0)
validate_buffer_range (some buffer_size) offset size =
    if ltb buffer_size offset
    then false
    else if ltb (buffer_size - offset) size
    then false
    else true

-- `(length + 4095) & ~4095` of `CreateManagedBuffer`, on 64-bit words: the sum, down to a multiple.
unfoldable pub aligned_size : ℕ → ℕ
aligned_size length = (length + 4095) % 2 ^ 64 / 4096 * 4096

-- The byte-by-byte loop of `CopyBuffer`: `i` goes up, `left` is what is left of the size.
unfoldable pub copy_bytes : ℕ → ℕ → List ℕ → List ℕ → List ℕ
copy_bytes zero i src dest = dest
copy_bytes (suc left) i src dest = copy_bytes left (suc i) src (set dest i (get_or src i 0))

-- std::memcpy
abbrev pub memcpy : List ℕ → List ℕ → ℕ → List ℕ
memcpy dest src size = take size src ++ drop size dest

unfoldable pub copy_buffer : Option (List ℕ) → ℕ → Option (List ℕ) → ℕ → ℕ × Option (List ℕ)
copy_buffer (some dest) dest_size (some src) src_size =
    let copy_size = min dest_size src_size in
    if copy_size == 0
    then (0, some dest)
    else if leb 1024 copy_size
    then (copy_size, some (memcpy dest src copy_size))
    else (copy_size, some (copy_bytes copy_size 0 src dest))
copy_buffer dest dest_size src src_size = (0, dest)

unfoldable pub fill_buffer : Option (List ℕ) → ℕ → ℕ → ℕ × Option (List ℕ)
fill_buffer none size value = (0, none)
fill_buffer (some buffer) size value =
    if size == 0 then (0, some buffer) else (size, some (replicate size value ++ drop size buffer))

-- std::memcmp, by the sign of its result.
abbrev pub memcmp : List ℕ → List ℕ → ℕ → ℤ
memcmp (x ∷ xs) (y ∷ ys) (suc size) =
    if x == y then memcmp xs ys size else if ltb x y then negsuc 0 else pos 1
memcmp _ _ _ = pos 0

unfoldable pub compare_buffers : Option (List ℕ) → Option (List ℕ) → ℕ → ℤ
compare_buffers none none size = pos 0
compare_buffers (some buf1) none size = pos 1
compare_buffers none (some buf2) size = negsuc 0
compare_buffers (some buf1) (some buf2) size = if size == 0 then pos 0 else memcmp buf1 buf2 size

pub record BufferStats : Type 0 where
  pub size : ℕ
  pub is_external : Bool
  pub is_detached : Bool

unfoldable pub get_buffer_stats : Option ℕ → BufferStats
get_buffer_stats none = record { size = 0; is_external = false; is_detached = false }
get_buffer_stats (some buffer_size) = record {
  size = buffer_size;
  is_external = true;
  is_detached = false;
}

-- What a function that JavaScript calls gives: a value, or an exception. `external` is an ArrayBuffer
-- over a block of the C library, with the length that Node shows.
pub data CallResult : Type 0 where
  returned : JsValue → CallResult
  external : List ℕ → ℕ → CallResult
  type_error range_error failure : CallResult

-- A null buffer of the code is the range error that goes with it.
unfoldable pub create_buffer_slice : List ℕ → ℕ → ℕ → CallResult
create_buffer_slice buffer offset size =
    if not (validate_buffer_range (some (length buffer)) offset size)
    then range_error
    else if size == 0
    then returned (array_buffer [])
    else returned (array_buffer (take size (drop offset buffer)))

-- `made` is whether Node makes a buffer over memory that is not its own.
unfoldable pub create_external_buffer : Bool → Option (List ℕ) → ℕ → CallResult
create_external_buffer made none size = type_error
create_external_buffer made (some block) size =
    if size == 0 then returned (array_buffer []) else if made then external block size else failure

-- `allocate` is aligned_alloc: a block of that size, where there is one.
unfoldable pub create_managed_buffer : (ℕ → Option (List ℕ)) → Bool → ℕ → CallResult
create_managed_buffer allocate made size =
    if size == 0 then returned (array_buffer []) else elim (allocate (aligned_size size)) [
      | none ↦ failure
      | some block ↦ create_external_buffer made (some block) size
    ]

unfoldable pub create_managed_buffer_call : (ℕ → Option (List ℕ)) → Bool → List JsValue → CallResult
create_managed_buffer_call allocate made [] = type_error
create_managed_buffer_call allocate made (size ∷ rest) = elim (safe_get_big_u64 size) [
  | none ↦ type_error
  | some n ↦ create_managed_buffer allocate made n
]

-- The second argument is not read.
unfoldable pub create_external_buffer_call :
    (ℕ → Option (List ℕ)) → Bool → List JsValue → CallResult
create_external_buffer_call allocate made (size ∷ second ∷ rest) =
    create_managed_buffer_call allocate made (size ∷ [])
create_external_buffer_call allocate made _ = type_error

unfoldable pub validate_buffer_call : List JsValue → CallResult
validate_buffer_call (array_buffer bytes ∷ required ∷ rest) = elim (safe_get_big_u64 required) [
  | none ↦ type_error
  | some n ↦ returned (boolean (validate_buffer (some (length bytes)) n))
]
validate_buffer_call _ = type_error

-- The two numbers that the calls on a range read.
abbrev pub range_args : JsValue → JsValue → (ℕ → ℕ → CallResult) → CallResult
range_args offset size next = elim (safe_get_big_u64 offset) [
  | none ↦ type_error
  | some o ↦ elim (safe_get_big_u64 size) [ none ↦ type_error | some n ↦ next o n ]
]

unfoldable pub validate_buffer_range_call : List JsValue → CallResult
validate_buffer_range_call (array_buffer bytes ∷ offset ∷ size ∷ rest) =
    range_args offset size
      (λ o n. returned (boolean (validate_buffer_range (some (length bytes)) o n)))
validate_buffer_range_call _ = type_error

unfoldable pub create_buffer_slice_call : List JsValue → CallResult
create_buffer_slice_call (array_buffer bytes ∷ offset ∷ size ∷ rest) =
    range_args offset size (create_buffer_slice bytes)
create_buffer_slice_call _ = type_error

unfoldable pub get_buffer_stats_call : List JsValue → CallResult
get_buffer_stats_call (array_buffer bytes ∷ rest) =
    let stats = get_buffer_stats (some (length bytes)) in
    returned (
      object_of (
        ("size", big_u64 stats.size)
        ∷ ("isExternal", boolean stats.is_external)
        ∷ ("isDetached", boolean stats.is_detached)
        ∷ []))
get_buffer_stats_call _ = type_error
