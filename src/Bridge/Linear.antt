-- ===== src/Bridge/Linear.antt =====
-- `HandleWriteBuf` of src/fuse_bridge.cc makes one piece of its segments, however short the reads of a
-- descriptor are.
use fuse_native.Base.{
  ℕ, ◌+◌, ◌≤◌, ◌<◌, ◌≡◌, List, [], ◌∷◌, Option, none, some, length, take, drop, leb, ◌==◌,
  if◌then◌else◌,
}
use fuse_native.Base.Int.{ℤ, pos, negsuc}
use fuse_native.Bridge.Buffers.{is_fd}
use fuse_native.Bridge.WriteBufs.{Pread, Segment, append?, mem_bytes}

-- pread, as documented: a call gives bytes of the file from its position on, no more than asked for,
-- and at least one where one is asked for and the file has one there; a position below 0 is an error.
pub record Reads (pread : Pread) (files : ℤ → List ℕ) : Type 0 where
  pub from :
      (fd : ℤ) (n p : ℕ)
      → (k : ℕ) × (pread fd n (pos p) ≡ take k (drop p (files fd)))
        × (k ≤ n)
        × (0 < n → p < length (files fd) → 0 < k)
  pub before : (fd : ℤ) (n p : ℕ) → pread fd n (negsuc p) ≡ []

-- The bytes of a file from a position on, if it has them all.
abbrev pub slice : List ℕ → ℕ → ℕ → Option (List ℕ)
slice file p n = if leb (p + n) (length file) then some (take n (drop p file)) else none

-- The same from a position that may be below 0.
abbrev at_position : List ℕ → ℤ → ℕ → Option (List ℕ)
at_position file (pos p) n = slice file p n
at_position file (negsuc p) n = none

-- What a segment stands for: nothing, bytes of a file, or the first bytes of its memory.
abbrev content : (ℤ → List ℕ) → Segment → Option (List ℕ)
content files s =
    if s.size == 0
    then some []
    else if is_fd s.flags
    then at_position (files s.fd) s.position s.size
    else mem_bytes s.size s.mem

abbrev pub contents : (ℤ → List ℕ) → List Segment → Option (List ℕ)
contents files [] = some []
contents files (s ∷ ss) = append? (content files s) (contents files ss)
