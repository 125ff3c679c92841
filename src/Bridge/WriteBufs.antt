-- ===== src/Bridge/WriteBufs.antt =====
-- src/fuse_bridge.cc: `HandleWriteBuf`. The segments of libfuse's buffer come one after another, and
-- pread is a parameter: the bytes that its call gives, none where it returns 0 or fails.
use fuse_native.Base.{
  ℕ, zero, suc, ◌-◌, take, ◌==◌, ◌||◌, ◌&&◌, Bool, true, false, not, List, [], ◌∷◌, ◌++◌, Option,
  none, some, if◌then◌else◌, length,
}
use fuse_native.Base.Int.{ℤ, pos, ◌+ℤ◌, to_u64}
use fuse_native.Errno.{eio, enosys}
use fuse_native.Bridge
use fuse_native.Bridge.{FuseOpType}
use fuse_native.Bridge.Js.{
  JsValue, number, array_buffer, array, Values, cons, nil, of_nat, big_u64, object_of,
}
use fuse_native.Bridge.Objects.FileInfos.{FileInfo}
use fuse_native.Bridge.Replies.{reply_err}
use fuse_native.Bridge.Answers.{handle_write_result}
use fuse_native.Bridge.Tasks.{Caller, Handled, replied_now, process, request_context, fi_option}
use fuse_native.Bridge.Buffers.{is_fd}

pub record Segment : Type 0 where
  pub size : ℕ
  pub flags : ℕ
  pub mem : Option (List ℕ)
  pub fd : ℤ
  pub position : ℤ

pub record Segments : Type 0 where
  pub idx : ℕ
  pub off : ℕ
  pub segments : List Segment

-- A call of pread for a number of bytes at a position. It gives no more than asked for.
abbrev pub Pread : Type 0
Pread = ℤ → ℕ → ℤ → List ℕ

abbrev pub append? : Option (List ℕ) → Option (List ℕ) → Option (List ℕ)
append? (some bytes) (some rest) = some (bytes ++ rest)
append? _ _ = none

-- The loop over pread, on fuel: `wanted` bytes are left, the next at `position`.
unfoldable pub read_fd : ℕ → Pread → ℤ → ℕ → ℤ → Option (List ℕ)
read_fd fuel pread fd zero position = some []
read_fd zero pread fd (suc wanted) position = none
read_fd (suc fuel) pread fd (suc wanted) position =
    let got = pread fd (suc wanted) position in
    elim (length got == 0) [
      | true ↦ none
      | false ↦
          append? (some got)
            (read_fd fuel pread fd (suc wanted - length got) (position +ℤ pos (length got)))
    ]

abbrev pub mem_bytes : ℕ → Option (List ℕ) → Option (List ℕ)
mem_bytes size none = none
mem_bytes size (some bytes) = some (take size bytes)

-- The bytes of a segment. A round of the loop reads at least one byte, so `size` rounds do.
unfoldable pub segment_bytes : Pread → Segment → Option (List ℕ)
segment_bytes pread s =
    if s.size == 0
    then some []
    else if is_fd s.flags
    then read_fd s.size pread s.fd s.size s.position
    else mem_bytes s.size s.mem

-- The loop that makes `linear`: the first segment that cannot be read ends it with EIO.
unfoldable pub linearize : Pread → List Segment → Option (List ℕ)
linearize pread [] = some []
linearize pread (s ∷ ss) = append? (segment_bytes pread s) (linearize pread ss)

abbrev contains_fd : List Segment → Bool
contains_fd [] = false
contains_fd (s ∷ ss) = is_fd s.flags || contains_fd ss

-- The copies of the segments, where none is a file's.
unfoldable pub copies : List Segment → Option (List (Segment × List ℕ))
copies [] = some []
copies (s ∷ ss) = elim (if s.size == 0 then some [] else mem_bytes s.size s.mem) [
  | none ↦ none
  | some bytes ↦ elim (copies ss) [ none ↦ none | some rest ↦ some ((s, bytes) ∷ rest) ]
]

abbrev buf_object : Segment → List ℕ → JsValue
buf_object s bytes = object_of (
    ("size", number (of_nat s.size))
    ∷ ("flags", number (of_nat s.flags))
    ∷ ("mem", array_buffer bytes)
    ∷ ("memSize", number (of_nat s.size))
    ∷ [])

abbrev buf_array : List (Segment × List ℕ) → Values
buf_array [] = nil
buf_array ((s, bytes) ∷ rest) = cons (buf_object s bytes) (buf_array rest)

abbrev bufvec_object : Segments → List (Segment × List ℕ) → JsValue
bufvec_object bufv bufs = object_of (
    ("count", number (of_nat (length bufs)))
    ∷ ("idx", number (of_nat bufv.idx))
    ∷ ("off", number (of_nat bufv.off))
    ∷ ("buf", array (buf_array bufs))
    ∷ [])

abbrev write_options : ℤ → Option FileInfo → JsValue
write_options off fi = object_of (("offset", big_u64 (to_u64 off)) ∷ fi_option fi)

-- A write handler gets the bytes in one piece.
unfoldable pub write_linear : Pread → Option Caller → ℕ → Segments → ℤ → Option FileInfo → Handled
write_linear pread caller ino bufv off fi = elim (linearize pread bufv.segments) [
  | none ↦ replied_now (reply_err eio)
  | some linear ↦
      process Bridge.op_write
        (big_u64 ino ∷ array_buffer linear ∷ request_context caller ∷ write_options off fi ∷ [])
        handle_write_result
]

unfoldable pub write_vector : Option Caller → ℕ → Segments → ℤ → Option FileInfo → Handled
write_vector caller ino bufv off fi = elim (copies bufv.segments) [
  | none ↦ replied_now (reply_err eio)
  | some bufs ↦
      process Bridge.op_write_buf
        (big_u64 ino ∷ bufvec_object bufv bufs ∷ request_context caller ∷ write_options off fi ∷ [])
        handle_write_result
]

unfoldable pub handle_write_buf :
    Pread → (FuseOpType → Bool) → Option Caller → ℕ → Segments → ℤ → Option FileInfo → Handled
handle_write_buf pread has_handler caller ino bufv off fi =
    if not (has_handler Bridge.op_write_buf) && not (has_handler Bridge.op_write)
    then replied_now (reply_err enosys)
    else if has_handler Bridge.op_write_buf && not (contains_fd bufv.segments)
    then write_vector caller ino bufv off fi
    else write_linear pread caller ino bufv off fi
