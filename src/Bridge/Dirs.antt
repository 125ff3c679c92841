-- ===== src/Bridge/Dirs.antt =====
-- src/fuse_bridge.cc: the replies of readdir and readdirplus. fuse_add_direntry and
-- fuse_add_direntry_plus are parameters, which give the bytes of an entry: their result is the length.
use Prim.Native.String.{String}
use fuse_native.Base.{
  ℕ, suc, ◌+◌, ◌-◌, ◌*◌, ◌%◌, ◌^◌, ◌==◌, Bool, true, false, List, [], ◌∷◌, ◌++◌, Option, none, some,
  length, ltb, if◌then◌else◌,
}
use fuse_native.Base.Int.{ℤ, pos, is_neg, to_i64}
use fuse_native.Errno.{eio}
use fuse_native.Bridge.Js.{
  JsValue, number, bigint, string, array, is_object, get_field, get, elements,
}
use fuse_native.Bridge.Objects.Stats.{Read, zero_time, int32_field, read_u64}
use fuse_native.Bridge.Objects.Entries.{◌>>=◌, EntryParam, populate_entry, one}
use fuse_native.Bridge.Replies.{Reply, reply_err, reply_buf, Answer, guarded, elsewhere, fail}

pub record DirEntry : Type 0 where
  pub name : String
  pub ino : ℕ
  pub mode : ℕ
  pub next_offset : ℤ

-- What an element of `entries` comes to: it is passed over, it makes the reply EIO, or it gives bytes,
-- after which an exception may be pending.
pub data Decoded : Type 0 where
  skipped refused : Decoded
  packed : List ℕ → Bool → Decoded

abbrev non_negative : ℤ → Option ℤ
non_negative i = if is_neg i then none else some i

-- `nextOffset`, or what stands for it where it is no number.
abbrev pub offset_field : Option ℤ → JsValue → Option ℤ
offset_field other (bigint u none) = none
offset_field other (bigint u (some i)) = non_negative i
offset_field other (number n) = non_negative n.int64_value
offset_field other _ = other

abbrev string_of : JsValue → Option String
string_of (string s) = some s
string_of _ = none

abbrev type_field : Option JsValue → Option ℕ
type_field none = some 0
type_field (some (number n)) = some n.uint32_value
type_field (some _) = none

-- A field that cannot be converted leaves an exception, so that `Has("nextOffset")` is false.
unfoldable pub dir_entry : JsValue → Option DirEntry
dir_entry entry = do
  name ← string_of (get "name" entry)
  ino_value ← get_field "ino" entry
  ino ← (let ino : Read = read_u64 false (some ino_value) in if ino.1 then none else some ino.0)
  type ← type_field (get_field "type" entry)
  next ← get_field "nextOffset" entry
  next_offset ← offset_field none next
  some (record { name = name; ino = ino; mode = type % 16 * 4096; next_offset = next_offset })

abbrev pub or_refused : Option (List ℕ) → Decoded
or_refused none = refused
or_refused (some bytes) = packed bytes false

unfoldable pub decode_entry : (DirEntry → List ℕ) → ℕ → JsValue → Decoded
decode_entry add_direntry i item =
    if is_object item then or_refused (do e ← dir_entry item; some (add_direntry e)) else skipped

-- The loop of both operations over the elements from `i` on, with `room` bytes left: the first entry
-- that does not fit ends it, and after an exception every element is passed over.
unfoldable pub fill : (ℕ → JsValue → Decoded) → ℕ → ℕ → List JsValue → Option (List ℕ)
fill decode i room [] = some []
fill decode i room (item ∷ items) = elim (decode i item) [
  | skipped ↦ fill decode (suc i) room items
  | refused ↦ none
  | packed bytes pending ↦ elim (ltb room (length bytes)) [
    | true ↦ some []
    | false ↦ elim pending [
      | true ↦ some bytes
      | false ↦ fill decode (suc i) (room - length bytes) items >>= λ rest. some (bytes ++ rest)
    ]
  ]
]

-- A buffer of no size is replied to at once.
unfoldable pub fill_reply : (ℕ → JsValue → Decoded) → ℕ → List JsValue → Reply
fill_reply decode size items =
    if size == 0
    then reply_buf []
    else elim (fill decode 0 size items) [ none ↦ reply_err eio | some bytes ↦ reply_buf bytes ]

unfoldable pub answer_readdir : (DirEntry → List ℕ) → ℕ → JsValue → Answer
answer_readdir add_direntry size value = elim (get "entries" value) [
  | array vs ↦ guarded (fill_reply (decode_entry add_direntry) size (elements vs))
  | _ ↦ fail eio
]

-- `make_min_entry`, with DT_DIR, DT_LNK and all else as a regular file.
abbrev pub min_mode : ℤ → ℕ
min_mode (pos n) = if n == 4 then 0o40555 else if n == 10 then 0o120777 else 0o100444
min_mode _ = 0o100444

unfoldable pub make_min_entry : ℕ → ℤ → EntryParam
make_min_entry child_ino dirent_type = record {
  ino = child_ino;
  generation = 0;
  attr = record {
    dev = 0;
    ino = child_ino;
    mode = min_mode dirent_type;
    nlink = 0;
    uid = 0;
    gid = 0;
    rdev = 0;
    size = pos 0;
    blksize = pos 0;
    blocks = pos 0;
    atime = zero_time;
    mtime = zero_time;
    ctime = zero_time;
  };
  attr_timeout = one;
  entry_timeout = one;
}

-- The entry of an element, and whether an exception is pending then: a full one, or a minimal one.
unfoldable pub entry_or_min : JsValue → EntryParam × Bool
entry_or_min entry = elim (populate_entry entry) [
  | some e ↦ (e, false)
  | none ↦
      let ino : Read = read_u64 false (get_field "ino" entry) in
      (make_min_entry ino.0 (if ino.1 then pos 0 else int32_field (get_field "type" entry)), ino.1)
]

unfoldable pub decode_plus : (String → EntryParam → ℤ → List ℕ) → ℕ → ℕ → JsValue → Decoded
decode_plus add_direntry_plus offset i entry = elim (string_of (get "name" entry)) [
  | none ↦ skipped
  | some name ↦
      elim (offset_field (some (to_i64 ((offset + i + 1) % 2 ^ 64))) (get "nextOffset" entry)) [
        | none ↦ refused
        | some next_offset ↦
            let e = entry_or_min entry in packed (add_direntry_plus name e.0 next_offset) e.1
      ]
]

unfoldable pub answer_readdirplus : (String → EntryParam → ℤ → List ℕ) → ℕ → ℕ → JsValue → Answer
answer_readdirplus add_direntry_plus offset size value = elim (get "entries" value) [
  | array vs ↦ guarded (fill_reply (decode_plus add_direntry_plus offset) size (elements vs))
  | _ ↦ fail eio
]

-- The handler of readdir in place of readdirplus: an array will do, and the reply goes through the
-- context of readdirplus, its errors through that of readdir.
abbrev pub entries_of : JsValue → JsValue
entries_of (array vs) = array vs
entries_of value = get "entries" value

unfoldable pub answer_fallback : (String → EntryParam → ℤ → List ℕ) → ℕ → ℕ → JsValue → Answer
answer_fallback add_direntry_plus offset size value = elim (entries_of value) [
  | array vs ↦ elsewhere (fill_reply (decode_plus add_direntry_plus offset) size (elements vs))
  | _ ↦ fail eio
]
