-- ===== src/Buffers/Copies.antt =====
-- CopyBuffer of src/buffer_bridge.cc: its byte-by-byte loop does what memcpy does.
use fuse_native.Base.{
  ℕ, zero, suc, ◌+◌, ◌≤◌, ◌<◌, ◌≡◌, refl, min, some, List, [], ◌∷◌, ◌++◌, length, take, drop,
  get_or, set, arith, ap,
}
use mathlib.Core.Path.{subst}
use fuse_native.Buffers.{copy_bytes, memcpy, copy_buffer}

-- One byte further: what is copied grows at its end.
set_next :
    (i : ℕ) (src dest : List ℕ)
    → i < length src
    → i < length dest
    → set (take i src ++ drop i dest) i (get_or src i 0) ≡ take (suc i) src ++ drop (suc i) dest
set_next i [] dest h k = absurd (omega arith)
set_next i (x ∷ src) [] h k = absurd (omega arith)
set_next zero (x ∷ src) (y ∷ dest) h k = refl
set_next (suc i) (x ∷ src) (y ∷ dest) h k =
    ap (λ (l : List ℕ). x ∷ l) (set_next i src dest (omega arith) (omega arith))

copy_bytes-memcpy :
    (left i : ℕ) (src dest : List ℕ)
    → i + left ≤ length src
    → i + left ≤ length dest
    → copy_bytes left i src (memcpy dest src i) ≡ memcpy dest src (i + left)
unfolding copy_bytes
copy_bytes-memcpy zero i src dest h k = let e : i + 0 ≡ i = omega arith in rw e refl
copy_bytes-memcpy (suc left) i src dest h k =
    let e : i + suc left ≡ suc i + left = omega arith in
    rw (set_next i src dest (omega arith) (omega arith))
      (rw e (copy_bytes-memcpy left (suc i) src dest (omega arith) (omega arith)))

copy_bytes_all :
    (size : ℕ) (src dest : List ℕ)
    → size ≤ length src
    → size ≤ length dest
    → copy_bytes size 0 src dest ≡ memcpy dest src size
copy_bytes_all size src dest h k =
    let e : 0 + size ≡ size = omega arith in
    subst (λ n. copy_bytes size 0 src dest ≡ memcpy dest src n) (e)
      (copy_bytes-memcpy size 0 src dest (omega arith) (omega arith))

-- Between blocks that are as long as the sizes say, CopyBuffer copies as many bytes as both sizes
-- allow, by its loop as by memcpy, and leaves the rest of the destination.
pub copy_buffer_lem :
    (dest src : List ℕ) (dest_size src_size : ℕ)
    → dest_size ≤ length dest
    → src_size ≤ length src
    → copy_buffer (some dest) dest_size (some src) src_size
      ≡ (min dest_size src_size, some (memcpy dest src (min dest_size src_size)))
unfolding copy_buffer
copy_buffer_lem dest src dest_size src_size h k =
    let all : copy_bytes (min dest_size src_size) 0 src dest
        ≡ memcpy dest src (min dest_size src_size) =
      copy_bytes_all (min dest_size src_size) src dest (omega arith) (omega arith) in
    let none_left : min dest_size src_size ≡ 0 → memcpy dest src (min dest_size src_size) ≡ dest =
      λ e. rw e refl in
    ground (arith, none_left)
