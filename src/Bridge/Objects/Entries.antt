-- ===== src/Bridge/Objects/Entries.antt =====
-- src/fuse_bridge.cc: `PopulateEntryFromResult`, and its like in `HandleCreate`.
use fuse_native.Base.{ℕ, ◌==◌, Bool, true, false, not, ◌&&◌, Option, none, some, if◌then◌else◌}
use fuse_native.Base.Int.{to_u64}
use fuse_native.Bridge.Js.{JsValue, Number, number, bigint, get_field, get, of_nat}
use fuse_native.Bridge.Objects.Stats.{Stat, Read, object_to_stat, read_u64}
use fuse_native.Bridge.Objects.FileInfos.{FileInfo, object_to_file_info}

pub record EntryParam : Type 0 where
  pub ino : ℕ
  pub generation : ℕ
  pub attr : Stat
  pub attr_timeout : Number
  pub entry_timeout : Number

abbrev pub has : Option JsValue → Bool
has none = false
has (some v) = true

-- `extract_timeout`, and `read_timeout` of HandleCreate: a finite number, not below 0.
unfoldable pub extract_timeout : JsValue → Option Number
extract_timeout (number n) = if n.finite && not n.negative then some n else none
extract_timeout _ = none

-- A generation or an inode number: a bigint that fits, or a number as an int64_t.
unfoldable pub extract_id : JsValue → Option ℕ
extract_id (bigint u i) = u
extract_id (number n) = some (to_u64 n.int64_value)
extract_id _ = none

infixl 5 ◌>>=◌
abbrev pub ◌>>=◌ {ℓ κ} : {A : Type ℓ} {B : Type κ} → Option A → (A → Option B) → Option B
none >>= f = none
some a >>= f = f a

-- `Get` of a field after `Has` of it.
unfoldable pub populate_entry : JsValue → Option EntryParam
populate_entry value = do
  attr_value ← get_field "attr" value
  ino_value ← get_field "ino" value
  gen_value ← get_field "generation" value
  entry_value ← get_field "entry_timeout" value
  timeout_value ← get_field "attr_timeout" value
  attr ← object_to_stat attr_value
  attr_timeout ← extract_timeout timeout_value
  entry_timeout ← extract_timeout entry_value
  generation ← extract_id gen_value
  ino ← extract_id ino_value
  some (record {
    ino = ino;
    generation = generation;
    attr = attr;
    attr_timeout = attr_timeout;
    entry_timeout = entry_timeout;
  })

abbrev pub one : Number
one = of_nat 1

-- A timeout that a field gives, if it gives one.
unfoldable pub timeout_or : Number → Option JsValue → Number
timeout_or old none = old
timeout_or old (some v) = elim (extract_timeout v) [ none ↦ old | some n ↦ n ]

-- What `HandleCreate` makes of an object that has `fi` and `attr`: `none` is EIO.
unfoldable pub create_reply : JsValue → Option (EntryParam × FileInfo)
create_reply value = do
  fi ← object_to_file_info (get "fi" value)
  attr ← object_to_stat (get "attr" value)
  let attr_timeout =
      timeout_or (timeout_or one (get_field "attrTimeout" value)) (get_field "attr_timeout" value)
  let entry_timeout =
      timeout_or (timeout_or one (get_field "entryTimeout" value)) (get_field "entry_timeout" value)
  let ino : Read = read_u64 false (get_field "ino" value)
  let derived = if ino.0 == 0 then attr.ino else ino.0
  let generation : Read = read_u64 ino.1 (get_field "generation" value)
  some (
    record {
      ino = derived;
      generation = generation.0;
      attr = record attr { ino = derived };
      attr_timeout = timeout_or attr_timeout (get_field "timeout" value);
      entry_timeout = timeout_or entry_timeout (get_field "timeout" value);
    },
    fi,
  )
