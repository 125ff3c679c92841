-- ===== src/Buffers/Ranges.antt =====
-- Ranges, views, slices and aligned sizes of src/buffer_bridge.cc, in 64-bit words.
use fuse_native.Base.{
  ℕ, ◌+◌, ◌*◌, ◌^◌, ◌≤◌, ◌<◌, ◌≡◌, ◌⊎◌, inl, inr, refl, List, ◌∷◌, [], Bool, true, length, take,
  drop, arith, leb, if◌then◌else◌, some, ◌/◌, dec_lt, ◌↔◌, ◌≢◌, Option,
}
use fuse_native.Bridge.Js.{JsValue, array_buffer, big_u64, view}
use fuse_native.Buffers.{
  create_buffer_view, validate_buffer_range, aligned_size, create_buffer_slice_call,
  create_buffer_slice, returned, range_error, create_managed_buffer, create_external_buffer,
  external,
}

-- A range is taken exactly where it ends within the buffer, though the code adds no two sizes.
pub validate_buffer_range_lem :
    (buffer_size offset size : ℕ)
    → validate_buffer_range (some buffer_size) offset size ≡ leb (offset + size) buffer_size
unfolding validate_buffer_range
validate_buffer_range_lem buffer_size offset size = ground arith

-- A slice that JavaScript asks for is the bytes from its offset on, as many as its length says, where
-- these lie in the buffer; any other is a range error.
create_buffer_slice_call_lem :
    (bytes : List ℕ) (offset size : ℕ) (rest : List JsValue)
    → create_buffer_slice_call (array_buffer bytes ∷ big_u64 offset ∷ big_u64 size ∷ rest) ≡ (
        if leb (offset + size) (length bytes)
        then returned (array_buffer (view bytes offset size))
        else range_error)
unfolding create_buffer_slice_call create_buffer_slice
create_buffer_slice_call_lem bytes offset size rest =
    let empty_slice : size ≡ 0 → take size (drop offset bytes) ≡ [] = λ e. rw e refl in
    ground (arith, validate_buffer_range_lem (length bytes) offset size, empty_slice)

-- A view never leaves its buffer.
pub create_buffer_view_bounds :
    (has_data : Bool) (size offset wanted : ℕ)
    → let v = create_buffer_view has_data size offset wanted in v.offset + v.size ≤ size
unfolding create_buffer_view
create_buffer_view_bounds has_data size offset wanted = ground arith

-- The aligned size is the least multiple of 4096 that is no less, or 0 where the sum wraps around.
aligned_size_lem :
    (size : ℕ)
    → size < 2 ^ 64
    → ((size + 4095 < 2 ^ 64)
        × (size ≤ aligned_size size)
        × (aligned_size size < size + 4096)
        × ((k : ℕ) × (aligned_size size ≡ k * 4096)))
      ⊎ ((2 ^ 64 ≤ size + 4095) × (aligned_size size ≡ 0))
unfolding aligned_size
aligned_size_lem size h = elim (dec_lt (size + 4095) (2 ^ 64)) [
  | yes k ↦ inl (omega arith, omega arith, omega arith, ((size + 4095) / 4096, omega arith))
  | no k ↦ inr (omega arith, omega arith)
]

blocks_fit :
    (allocate : ℕ → Option (List ℕ)) (size : ℕ) (block : List ℕ)
    → create_managed_buffer allocate true size ≡ external block size
    → (size ≢ 0) × (allocate (aligned_size size) ≡ some block)
unfolding create_managed_buffer create_external_buffer
blocks_fit allocate size block e = ground arith

-- Where aligned_alloc gives blocks of the size that it is asked for, the block under a managed buffer
-- holds the buffer's length exactly where this is more than 4095 below 2 ^ 64.
pub create_managed_buffer_fits :
    (allocate : ℕ → Option (List ℕ)) (size : ℕ) (block : List ℕ)
    → ((n : ℕ) (b : List ℕ) → allocate n ≡ some b → length b ≡ n)
    → size < 2 ^ 64
    → create_managed_buffer allocate true size ≡ external block size
    → (size ≤ length block) ↔ (size + 4095 < 2 ^ 64)
create_managed_buffer_fits allocate size block sized h e =
    let found = blocks_fit allocate size block e in
    ground (arith, aligned_size_lem size h, sized (aligned_size size) block found.1)
