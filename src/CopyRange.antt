-- ===== src/CopyRange.antt =====
-- src/copy_file_range.h and src/copy_file_range.cc: the copy between two descriptors, by the kernel or
-- in chunks. The kernel is a parameter: `Files` are its calls on a world `W`. Offsets are not
-- negative and do not overflow; a descriptor's own position is no offset (`none`). The loop that
-- retries an interrupted write has `retries` rounds more than it needs without interrupts.
pub mod Writes
pub mod Copies
pub mod Choice
mod Tests
use fuse_native.Base.{
  ℕ, zero, suc, ◌+◌, ◌-◌, ◌*◌, Bool, true, false, not, Option, none, some, List, [], ◌∷◌, ltb, leb,
  ◌==◌, min, max, if◌then◌else◌, length, drop,
}
use fuse_native.Base.Int.{ℤ, pos, negsuc}

abbrev pub default_chunk_size : ℕ
default_chunk_size = 4 * 1024 * 1024

abbrev pub max_chunk_size : ℕ
max_chunk_size = 8 * 1024 * 1024

abbrev pub min_chunk_size : ℕ
min_chunk_size = 64 * 1024

pub data Written : Type 0 where
  interrupted write_failed : Written
  wrote : ℕ → Written

-- What the kernel's copy returns: the count and the offsets, or an error.
pub data KernelError : Type 0 where
  enosys eopnotsupp exdev other_error : KernelError

pub data KernelCopy : Type 0 where
  kernel_copied : ℕ → Option ℕ → Option ℕ → KernelCopy
  kernel_failed : KernelError → KernelCopy

-- read and pread, write and pwrite, and the copy of a length between two offsets.
pub record Files {ℓ} (W : Type ℓ) : Type ℓ where
  pub read : W → Option ℕ → ℕ → Option (List ℕ) × W
  pub write : W → Option ℕ → List ℕ → Written × W
  pub kernel_copy : W → Option ℕ → Option ℕ → ℕ → KernelCopy × W

pub record CopyFileRange : Type 0 where
  pub chunk_size : ℕ
  pub use_kernel_copy : Bool

-- `supported`: whether the call that tests the kernel fails otherwise than with ENOSYS.
abbrev pub new_copy_file_range : Bool → CopyFileRange
new_copy_file_range supported = record {
  chunk_size = default_chunk_size;
  use_kernel_copy = supported;
}

unfoldable pub set_chunk_size : CopyFileRange → ℕ → CopyFileRange
set_chunk_size c size = record c { chunk_size = min (max size min_chunk_size) max_chunk_size }

abbrev advance : Option ℕ → ℕ → Option ℕ
advance none n = none
advance (some offset) n = some (offset + n)

abbrev pub actual_chunk_size : CopyFileRange → ℕ → ℕ
actual_chunk_size c len = min (max len min_chunk_size) c.chunk_size

-- How the copy of chunks ends: `stopped` on an error.
pub data Exit {ℓ} (W : Type ℓ) : Type ℓ where
  finished stopped : ℕ → W → Exit W

-- The result, and the caller's two offsets.
pub record Result {ℓ} (W : Type ℓ) : Type ℓ where
  pub value : ℤ
  pub offset_in : Option ℕ
  pub offset_out : Option ℕ
  pub world : W

module _ {ℓ} {W : Type ℓ} (files : Files W) where
  -- The inner loop: whether all bytes were written.
  unfoldable pub write_all : ℕ → W → Option ℕ → List ℕ → Option (Bool × W)
  write_all zero w out bs = none
  write_all (suc fuel) w out [] = some (true, w)
  write_all (suc fuel) w out (b ∷ bs) =
      let r = files.write w out (b ∷ bs) in
      elim r.0 [
        | interrupted ↦ write_all fuel r.1 out (b ∷ bs)
        | write_failed ↦ some (false, r.1)
        | wrote zero ↦ some (false, r.1)
        | wrote (suc n) ↦ write_all fuel r.1 (advance out (suc n)) (drop n bs)
      ]

  -- The outer loop, `total` bytes behind.
  unfoldable pub copy_loop : ℕ → ℕ → ℕ → ℕ → W → Option ℕ → Option ℕ → ℕ → Option (Exit W)
  copy_loop zero retries len chunk w inp out total = none
  copy_loop (suc fuel) retries len chunk w inp out total =
      let n = min (len - total) chunk in
      let r = files.read w inp n in
      if leb len total then some (finished total w) else elim r.0 [
        | none ↦ some (stopped total r.1)
        | some [] ↦ some (finished total r.1)
        | some (b ∷ bs) ↦
            let count = length (b ∷ bs) in
            elim (write_all (suc (count + retries)) r.1 out (b ∷ bs)) [
              | none ↦ none
              | some (false, w') ↦ some (stopped total w')
              | some (true, w') ↦ elim (ltb count n) [
                | true ↦ some (finished (total + count) w')
                | false ↦
                    copy_loop fuel retries len chunk w' (advance inp count) (advance out count)
                      (total + count)
              ]
            ]
      ]

  -- The offsets are advanced at the end only, and not on an error.
  abbrev pub exit_result : Option ℕ → Option ℕ → Exit W → Result W
  exit_result inp out (finished total w) = record {
    value = pos total;
    offset_in = advance inp total;
    offset_out = advance out total;
    world = w;
  }
  exit_result inp out (stopped total w) = record {
    value = if ltb 0 total then pos total else negsuc 0;
    offset_in = inp;
    offset_out = out;
    world = w;
  }

  -- `allocated`: whether the buffer could be allocated. None is a loop that its fuel does not end.
  unfoldable pub chunked_copy_file_range :
      ℕ → CopyFileRange → W → Bool → Option ℕ → Option ℕ → ℕ → Option (Result W)
  chunked_copy_file_range retries c w allocated inp out len =
      if len == 0
      then some (record { value = pos 0; offset_in = inp; offset_out = out; world = w })
      else if not allocated
      then some (record { value = negsuc 0; offset_in = inp; offset_out = out; world = w })
      else elim (copy_loop (suc len) retries len (actual_chunk_size c len) w inp out 0) [
        | none ↦ none
        | some e ↦ some (exit_result inp out e)
      ]

  -- The copy, and the state after it.
  unfoldable pub copy_file_range :
      ℕ → CopyFileRange → W → Bool → Option ℕ → Option ℕ → ℕ → Option (Result W) × CopyFileRange
  copy_file_range retries c w allocated inp out len =
      let k = files.kernel_copy w inp out len in
      let unsupported = record c { use_kernel_copy = false } in
      let chunked = chunked_copy_file_range retries c k.1 allocated inp out len in
      if len == 0
      then (some (record { value = pos 0; offset_in = inp; offset_out = out; world = w }), c)
      else if c.use_kernel_copy
      then elim k.0 [
        | kernel_copied n inp' out' ↦
            (some (record { value = pos n; offset_in = inp'; offset_out = out'; world = k.1 }), c)
        | kernel_failed enosys ↦ (chunked, unsupported)
        | kernel_failed eopnotsupp ↦ (chunked, unsupported)
        | kernel_failed exdev ↦ (chunked, c)
        | kernel_failed other_error ↦
            (some (record { value = negsuc 0; offset_in = inp; offset_out = out; world = k.1 }), c)
      ]
      else (chunked_copy_file_range retries c w allocated inp out len, c)
