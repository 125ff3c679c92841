-- ===== src/Buffers/Tests.antt =====
-- Runs of the models of src/buffer_bridge.cc.
use fuse_native.Base.{
  ℕ, ◌+◌, ◌-◌, ◌^◌, ◌≤◌, ◌<◌, ◌≡◌, ◌↔◌, refl, min, true, Option, some, none, List, [], ◌∷◌, length,
  leb, replicate, length-replicate, arith, if◌then◌else◌,
}
use fuse_native.Buffers.{
  copy_buffer, memcpy, copy_bytes, create_managed_buffer, create_external_buffer, aligned_size,
  external,
}
use fuse_native.Buffers.Copies.{copy_buffer_lem}
use fuse_native.Buffers.Ranges.{create_managed_buffer_fits}

abbrev dest_bytes : List ℕ
dest_bytes = 1 ∷ 2 ∷ 3 ∷ []

abbrev src_bytes : List ℕ
src_bytes = 7 ∷ 8 ∷ []

copied_lem : copy_buffer (some dest_bytes) 3 (some src_bytes) 2 ≡ (2, some (7 ∷ 8 ∷ 3 ∷ []))
unfolding copy_buffer copy_bytes
copied_lem = refl

copy_buffer_example :
    copy_buffer (some dest_bytes) 3 (some src_bytes) 2
    ≡ (min 3 2, some (memcpy dest_bytes src_bytes (min 3 2)))
copy_buffer_example = copy_buffer_lem dest_bytes src_bytes 3 2 (omega arith) (omega arith)

abbrev zeros : ℕ → Option (List ℕ)
zeros n = some (replicate n 0)

zeros_sized : (n : ℕ) (b : List ℕ) → zeros n ≡ some b → length b ≡ n
zeros_sized n b e = ground (arith, length-replicate {A = ℕ} n 0)

-- A page at most.
abbrev page : ℕ → Option (List ℕ)
page n = if leb n 4096 then zeros n else none

page_sized : (n : ℕ) (b : List ℕ) → page n ≡ some b → length b ≡ n
page_sized n b e = ground (arith, length-replicate {A = ℕ} n 0)

-- The sum for the last sizes wraps around: a buffer of 2 ^ 64 - 1 bytes over a block of none.
wrapped : create_managed_buffer page true (2 ^ 64 - 1) ≡ external [] (2 ^ 64 - 1)
unfolding create_managed_buffer create_external_buffer aligned_size
wrapped = refl

create_managed_buffer_fits_example : (2 ^ 64 - 1 ≤ length {A = ℕ} []) ↔ (2 ^ 64 - 1 + 4095 < 2 ^ 64)
create_managed_buffer_fits_example =
    create_managed_buffer_fits page (2 ^ 64 - 1) [] page_sized (omega arith) wrapped
