-- ===== src/Bridge/Guarded.antt =====
-- The operations of src/fuse_bridge.cc that answer through their own context.
use Prim.Native.String.{String}
use fuse_native.Base.{
  ℕ, ◌≡◌, refl, not, Bool, true, false, List, Option, none, some, arith, Bool-cases, Option-cases,
  inl, inr, if◌then◌else◌,
}
use fuse_native.Base.Int.{ℤ}
use fuse_native.Bridge
use fuse_native.Bridge.{FuseOpType}
use fuse_native.Bridge.Js
use fuse_native.Bridge.Js.{JsValue}
use fuse_native.Bridge.Objects.Stats.{Stat}
use fuse_native.Bridge.Objects.FileInfos.{FileInfo}
use fuse_native.Bridge.Answers.{
  answer_ok, answer_attr, answer_entry, answer_rename, answer_code, answer_readlink, answer_open,
  answer_create, answer_read, answer_write, answer_write_buf, handle_write_result, answer_statfs,
  answer_getlk,
}
use fuse_native.Bridge.Dirs.{answer_readdir, answer_readdirplus, DirEntry}
use fuse_native.Bridge.Objects.Entries.{EntryParam}
use fuse_native.Bridge.Tasks.{Caller, Handled}
use fuse_native.Bridge.Handlers.Attrs.{
  handle_setattr, handle_chown, handle_chmod, handle_truncate, set_attributes,
}
use fuse_native.Bridge.Handlers.Files.{handle_flush, handle_release}
use fuse_native.Bridge.Handlers.Io.{handle_read, handle_write, handle_readdirplus}
use fuse_native.Bridge.WriteBufs.{
  Pread, Segments, handle_write_buf, write_linear, write_vector, copies, linearize,
}
use fuse_native.Bridge.Once.{is_guarded, AllGuarded, task, at_once}

pub answer_ok-guarded : (v : JsValue) → is_guarded (answer_ok v) ≡ true
unfolding answer_ok
answer_ok-guarded v = refl

pub answer_attr-guarded : (v : JsValue) → is_guarded (answer_attr v) ≡ true
unfolding answer_attr
answer_attr-guarded v = ground arith

pub answer_entry-guarded :
    (errno_code : ℕ) (v : JsValue) → is_guarded (answer_entry errno_code v) ≡ true
unfolding answer_entry
answer_entry-guarded errno_code v = ground arith

pub answer_rename-guarded : (v : JsValue) → is_guarded (answer_rename v) ≡ true
unfolding answer_rename
answer_rename-guarded Js.undefined = refl
answer_rename-guarded _ = refl

pub answer_code-guarded : (v : JsValue) → is_guarded (answer_code v) ≡ true
unfolding answer_code
answer_code-guarded (Js.number n) = refl
answer_code-guarded _ = refl

pub answer_readlink-guarded : (v : JsValue) → is_guarded (answer_readlink v) ≡ true
unfolding answer_readlink
answer_readlink-guarded (Js.string s) = refl
answer_readlink-guarded _ = ground arith

pub answer_open-guarded : (v : JsValue) → is_guarded (answer_open v) ≡ true
unfolding answer_open
answer_open-guarded v = ground arith

pub answer_create-guarded : (v : JsValue) → is_guarded (answer_create v) ≡ true
unfolding answer_create
answer_create-guarded v = ground arith

pub answer_read-guarded : (v : JsValue) → is_guarded (answer_read v) ≡ true
unfolding answer_read
answer_read-guarded (Js.array_buffer bytes) = refl
answer_read-guarded _ = refl

pub answer_write-guarded : (v : JsValue) → is_guarded (answer_write v) ≡ true
unfolding answer_write
answer_write-guarded v = ground arith

pub answer_write_buf-guarded : (v : JsValue) → is_guarded (answer_write_buf v) ≡ true
unfolding answer_write_buf answer_write
answer_write_buf-guarded v = ground arith

pub handle_write_result-guarded : (v : JsValue) → is_guarded (handle_write_result v) ≡ true
unfolding handle_write_result
handle_write_result-guarded v = ground arith

pub answer_statfs-guarded : (v : JsValue) → is_guarded (answer_statfs v) ≡ true
unfolding answer_statfs
answer_statfs-guarded v = ground arith

pub answer_getlk-guarded : (v : JsValue) → is_guarded (answer_getlk v) ≡ true
unfolding answer_getlk
answer_getlk-guarded v = ground arith

pub answer_readdir-guarded :
    (add : DirEntry → List ℕ) (size : ℕ) (v : JsValue)
    → is_guarded (answer_readdir add size v) ≡ true
unfolding answer_readdir
answer_readdir-guarded add size v = ground arith

pub answer_readdirplus-guarded :
    (add : String → EntryParam → ℤ → List ℕ) (offset size : ℕ) (v : JsValue)
    → is_guarded (answer_readdirplus add offset size v) ≡ true
unfolding answer_readdirplus
answer_readdirplus-guarded add offset size v = ground arith

-- A test between two handlings.
if-AllGuarded :
    (b : Bool) {x y : Handled} → AllGuarded x → AllGuarded y → AllGuarded (if b then x else y)
if-AllGuarded true hx hy = hx
if-AllGuarded false hx hy = hy

pub handle_setattr-AllGuarded :
    (has : FuseOpType → Bool) (c : Option Caller) (ino : ℕ) (attr : Option Stat) (to_set : ℕ)
    (fi : Option FileInfo)
    → AllGuarded (handle_setattr has c ino attr to_set fi)
unfolding handle_setattr handle_chown handle_chmod handle_truncate set_attributes
handle_setattr-AllGuarded has c ino none to_set fi = at_once
handle_setattr-AllGuarded has c ino (some attr) to_set fi =
    search (if-AllGuarded, task answer_attr-guarded)

pub handle_code-AllGuarded :
    (has : FuseOpType → Bool) (c : Option Caller) (ino : ℕ) (fi : Option FileInfo)
    → AllGuarded (handle_flush has c ino fi) × AllGuarded (handle_release has c ino fi)
unfolding handle_flush handle_release
handle_code-AllGuarded has c ino fi = (
  if-AllGuarded _ (task answer_code-guarded) at_once,
  if-AllGuarded _ (task answer_code-guarded) at_once,
)

pub handle_write-AllGuarded :
    (has : FuseOpType → Bool) (c : Option Caller) (ino : ℕ) (bytes : List ℕ) (off : ℤ)
    (fi : Option FileInfo)
    → AllGuarded (handle_write has c ino bytes off fi)
unfolding handle_write
handle_write-AllGuarded has c ino bytes off fi =
    if-AllGuarded _ (task answer_write_buf-guarded)
      (if-AllGuarded _ at_once (task answer_write-guarded))

write_vector-AllGuarded :
    (c : Option Caller) (ino : ℕ) (bufv : Segments) (off : ℤ) (fi : Option FileInfo)
    → AllGuarded (write_vector c ino bufv off fi)
unfolding write_vector
write_vector-AllGuarded c ino bufv off fi = elim (Option-cases (copies bufv.segments)) [
  | inl e ↦ rw (e, write_vector) at_once
  | inr (bufs, e) ↦ rw (e, write_vector) (task handle_write_result-guarded)
]

write_linear-AllGuarded :
    (pread : Pread) (c : Option Caller) (ino : ℕ) (bufv : Segments) (off : ℤ) (fi : Option FileInfo)
    → AllGuarded (write_linear pread c ino bufv off fi)
unfolding write_linear
write_linear-AllGuarded pread c ino bufv off fi =
    elim (Option-cases (linearize pread bufv.segments)) [
      | inl e ↦ rw (e, write_linear) at_once
      | inr (linear, e) ↦ rw (e, write_linear) (task handle_write_result-guarded)
    ]

pub handle_write_buf-AllGuarded :
    (pread : Pread) (has : FuseOpType → Bool) (c : Option Caller) (ino : ℕ) (bufv : Segments)
    (off : ℤ) (fi : Option FileInfo)
    → AllGuarded (handle_write_buf pread has c ino bufv off fi)
unfolding handle_write_buf
handle_write_buf-AllGuarded pread has c ino bufv off fi = if-AllGuarded _ at_once (
    if-AllGuarded _ (write_vector-AllGuarded c ino bufv off fi)
      (write_linear-AllGuarded pread c ino bufv off fi))

pub handle_read-AllGuarded :
    (rc : ℤ) (has : FuseOpType → Bool) (c : Option Caller) (ino size : ℕ) (off : ℤ)
    (fi : Option FileInfo)
    → not (has Bridge.op_read_buf) ≡ true
    → AllGuarded (handle_read rc has c ino size off fi)
unfolding handle_read
handle_read-AllGuarded rc has c ino size off fi h = elim (Bool-cases (has Bridge.op_read_buf)) [
  | inl e ↦ cc (rw e at h)
  | inr e ↦ rw e (if-AllGuarded _ at_once (task answer_read-guarded))
]

pub handle_readdirplus-AllGuarded :
    (add : String → EntryParam → ℤ → List ℕ) (has : FuseOpType → Bool) (c : Option Caller)
    (ino size : ℕ) (off : ℤ) (fi : Option FileInfo)
    → has Bridge.op_readdirplus ≡ true
    → AllGuarded (handle_readdirplus add has c ino size off fi)
unfolding handle_readdirplus
handle_readdirplus-AllGuarded add has c ino size off fi h =
    rw h (task (answer_readdirplus-guarded add _ size))
