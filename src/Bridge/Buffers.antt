-- ===== src/Bridge/Buffers.antt =====
-- src/fuse_bridge.cc: `ConvertJsFuseBufvec`, which reads the buffers that a read_buf handler returns.
use fuse_native.Base.{
  ℕ, zero, suc, ◌/◌, ◌%◌, ◌==◌, Bool, not, ◌&&◌, List, [], ◌∷◌, Option, none, some, ltb, leb,
  length, take, if◌then◌else◌,
}
use fuse_native.Base.Int.{ℤ, pos}
use fuse_native.Bridge.Js.{
  JsValue, Values, number, bigint, array, array_buffer, typed_array, get_field, elements, view,
}
use fuse_native.Bridge.Objects.Entries.{◌>>=◌}

-- A fuse_buf: a file descriptor with a position, or memory of its own. FUSE_BUF_IS_FD is bit 1.
pub data Source : Type 0 where
  file : ℤ → ℤ → Source
  memory : List ℕ → Source

pub record Buf : Type 0 where
  pub size : ℕ
  pub flags : ℕ
  pub source : Source

pub record Bufvec : Type 0 where
  pub count : ℕ
  pub idx : ℕ
  pub off : ℕ
  pub bufs : List Buf

abbrev pub is_fd : ℕ → Bool
is_fd flags = flags / 2 % 2 == 1

-- `TryGetSizeT`: a number that is whole. 2 ^ 64 itself passes the source's test, and the cast of it is
-- undefined; here it is refused.
unfoldable pub try_get_size : JsValue → Option ℕ
try_get_size (number n) = if n.finite && not n.negative then n.whole else none
try_get_size _ = none

abbrev pub flags_field : Option JsValue → Option ℕ
flags_field none = some 0
flags_field (some (number n)) = some n.uint32_value
flags_field (some _) = none

abbrev pub fd_field : JsValue → Option ℤ
fd_field (number n) = some n.int32_value
fd_field _ = none

abbrev pub pos_field : Option JsValue → Option ℤ
pos_field none = some (pos 0)
pos_field (some (bigint u i)) = i
pos_field (some (number n)) = some n.int64_value
pos_field (some _) = none

abbrev pub mem_field : JsValue → Option (List ℕ)
mem_field (array_buffer bytes) = some bytes
mem_field (typed_array is_buffer bytes offset size) = some (view bytes offset size)
mem_field _ = none

unfoldable pub convert_source : JsValue → ℕ → ℕ → Option Source
convert_source entry size flags =
    if is_fd flags
    then (do
      fd_value ← get_field "fd" entry
      fd ← fd_field fd_value
      position ← pos_field (get_field "pos" entry)
      some (file fd position))
    else (do
      mem_value ← get_field "mem" entry
      bytes ← mem_field mem_value
      if ltb (length bytes) size then none else some (memory (take size bytes)))

unfoldable pub convert_buf : JsValue → Option Buf
convert_buf entry = do
  size_value ← get_field "size" entry
  size ← try_get_size size_value
  flags ← flags_field (get_field "flags" entry)
  source ← convert_source entry size flags
  some (record { size = size; flags = flags; source = source })

-- The loop over the first `count` elements of `buf`, which has as many.
unfoldable pub convert_bufs : List JsValue → Option (List Buf)
convert_bufs [] = some []
convert_bufs (entry ∷ entries) = do
  buf ← convert_buf entry
  bufs ← convert_bufs entries
  some (buf ∷ bufs)

abbrev pub array_field : JsValue → Option Values
array_field (array vs) = some vs
array_field _ = none

abbrev pub size_at : ℕ → List Buf → ℕ
size_at i [] = 0
size_at zero (b ∷ bs) = b.size
size_at (suc i) (b ∷ bs) = size_at i bs

-- The tests at the end. Without buffers the position is 0.
unfoldable pub check_position : ℕ → ℕ → ℕ → List Buf → Option Bufvec
check_position count idx off bufs =
    if count == 0
    then some (record { count = 0; idx = 0; off = 0; bufs = [] })
    else if leb count idx
    then none
    else if ltb (size_at idx bufs) off
    then none
    else some (record { count = count; idx = idx; off = off; bufs = bufs })

unfoldable pub convert_bufvec : JsValue → Option Bufvec
convert_bufvec value = do
  count_value ← get_field "count" value
  count ← try_get_size count_value
  idx_value ← get_field "idx" value
  idx ← try_get_size idx_value
  off_value ← get_field "off" value
  off ← try_get_size off_value
  buf_value ← get_field "buf" value
  vs ← array_field buf_value
  if ltb (length (elements vs)) count
      then none
      else (do bufs ← convert_bufs (take count (elements vs)); check_position count idx off bufs)
