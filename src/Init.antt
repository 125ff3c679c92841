-- ===== src/Init.antt =====
-- src/init_bridge.cc: the InitBridge, its records, and the functions that JavaScript calls. The
-- numbers of FUSE_CAP_ are those of libfuse 3. Races interleaves the threads, Bits reads the
-- capabilities as bits. Each function below is a part that the mutex makes one step, or that runs without it.
pub mod Bits
pub mod Caps
pub mod Races
mod Tests
use Prim.Native.String.{String}
use fuse_native.Base.{
  ℕ, zero, suc, ◌+◌, ◌*◌, ◌/◌, ◌%◌, ◌^◌, min, Bool, true, false, ◌&&◌, Option, none, some, List, [],
  ◌∷◌, ◌==◌, map, length, if◌then◌else◌, take,
}
use fuse_native.Base.Int.{ℤ}
use fuse_native.Bridge.Js.{
  JsValue, Values, nil, cons, Number, null, number, string, array, boolean, function, of_nat,
  of_int, elements, object_of,
}

pub record ConnectionInfo : Type 0 where
  pub proto_major : ℕ
  pub proto_minor : ℕ
  pub capable : ℕ
  pub want : ℕ
  pub max_write : ℕ
  pub max_read : ℕ
  pub max_readahead : ℕ
  pub max_background : ℕ
  pub congestion_threshold : ℕ
  pub time_gran : ℕ
  pub reserved : List ℕ

-- Without `modules`, which is never set.
pub record FuseConfig : Type 0 where
  pub set_gid : ℤ
  pub gid : ℕ
  pub set_uid : ℤ
  pub uid : ℕ
  pub set_mode : ℤ
  pub umask : ℕ
  pub entry_timeout : Number
  pub negative_timeout : Number
  pub attr_timeout : Number
  pub use_ino : ℤ
  pub readdir_ino : ℤ
  pub direct_io : ℤ
  pub kernel_cache : ℤ
  pub auto_cache : ℤ
  pub ac_attr_timeout_set : ℤ
  pub ac_attr_timeout : Number
  pub nullpath_ok : ℤ
  pub show_help : ℤ
  pub debug : ℤ

-- `function` is the thread-safe function that init_callback_ holds, by the order in which they were
-- made; `made` is how many were, and `closed` those that were aborted and released, the latest first.
pub record InitBridge : Type 0 where
  pub initialized : Bool
  pub has_callback : Bool
  pub function : ℕ
  pub made : ℕ
  pub closed : List ℕ
  pub connection_info : Option ConnectionInfo
  pub config : Option FuseConfig

abbrev pub new_bridge : InitBridge
new_bridge = record {
  initialized = false;
  has_callback = false;
  function = 0;
  made = 0;
  closed = [];
  connection_info = none;
  config = none;
}

unfoldable pub initialize : InitBridge → Bool → InitBridge
initialize b has_ops = if has_ops then record b { initialized = true } else b

abbrev pub close_callback : InitBridge → InitBridge
close_callback b = record b { has_callback = false; closed = b.function ∷ b.closed }

unfoldable pub set_init_callback : InitBridge → Bool → InitBridge
set_init_callback b is_function =
    let b' = if b.has_callback then close_callback b else b in
    if is_function
    then record b' { has_callback = true; function = b.made; made = suc b.made }
    else b

unfoldable pub remove_init_callback : InitBridge → InitBridge
remove_init_callback b = if b.has_callback then close_callback b else b

unfoldable pub reset : InitBridge → InitBridge
reset b =
    let b' = if b.has_callback then close_callback b else b in
    record b' { connection_info = none; config = none; initialized = false }

-- The 22 reserved fields are taken from `conn` as they are.
unfoldable pub convert_connection_info : Option ConnectionInfo → Option ConnectionInfo
convert_connection_info none = none
convert_connection_info (some conn) = some (record conn { reserved = take 22 conn.reserved })

unfoldable pub convert_config : Option FuseConfig → Option FuseConfig
convert_config none = none
convert_config (some cfg) = some cfg

-- `FuseInitCallback` under the lock.
unfoldable pub store_init : InitBridge → Option ConnectionInfo → Option FuseConfig → InitBridge
store_init b (some conn) (some cfg) = record b {
  connection_info = convert_connection_info (some conn);
  config = convert_config (some cfg);
}
store_init b conn cfg = b

-- What it goes on to JavaScript with, which it reads without the lock.
unfoldable pub read_init : InitBridge → Option (ConnectionInfo × FuseConfig)
read_init b = if b.has_callback then both b.connection_info b.config else none
  where
    both : Option ConnectionInfo → Option FuseConfig → Option (ConnectionInfo × FuseConfig)
    both (some conn) (some cfg) = some (conn, cfg)
    both conn cfg = none

-- `CallJavaScriptCallback`: the check under the lock, and the function that it then calls without.
unfoldable pub may_call : InitBridge → Bool
may_call b = b.has_callback

unfoldable pub called_function : InitBridge → ℕ
called_function b = b.function

-- The bits that two words of this width have in common, and `&` of 32-bit words.
unfoldable pub and_bits : ℕ → ℕ → ℕ → ℕ
and_bits zero a b = 0
and_bits (suc width) a b = and_bits width (a / 2) (b / 2) * 2 + min (a % 2) (b % 2)

abbrev pub and_word : ℕ → ℕ → ℕ
and_word a b = and_bits 32 a b

-- Whether all of these have a bit in common with what the connection can.
unfoldable pub all_capable : ℕ → List ℕ → Bool
all_capable capable [] = true
all_capable capable (cap ∷ caps) =
    if and_word capable cap == 0 then false else all_capable capable caps

unfoldable pub check_capabilities : InitBridge → List ℕ → Bool
check_capabilities b caps = elim b.connection_info [
  | none ↦ false
  | some info ↦ all_capable info.capable caps
]

abbrev pub capabilities : List (ℕ × String)
capabilities =
    (2 ^ 0, "ASYNC_READ")
    ∷ (2 ^ 1, "POSIX_LOCKS")
    ∷ (2 ^ 3, "ATOMIC_O_TRUNC")
    ∷ (2 ^ 4, "EXPORT_SUPPORT")
    ∷ (2 ^ 6, "DONT_MASK")
    ∷ (2 ^ 7, "SPLICE_WRITE")
    ∷ (2 ^ 8, "SPLICE_MOVE")
    ∷ (2 ^ 9, "SPLICE_READ")
    ∷ (2 ^ 10, "FLOCK_LOCKS")
    ∷ (2 ^ 11, "IOCTL_DIR")
    ∷ (2 ^ 12, "AUTO_INVAL_DATA")
    ∷ (2 ^ 13, "READDIRPLUS")
    ∷ (2 ^ 14, "READDIRPLUS_AUTO")
    ∷ (2 ^ 15, "ASYNC_DIO")
    ∷ (2 ^ 16, "WRITEBACK_CACHE")
    ∷ (2 ^ 17, "NO_OPEN_SUPPORT")
    ∷ (2 ^ 18, "PARALLEL_DIROPS")
    ∷ (2 ^ 19, "POSIX_ACL")
    ∷ (2 ^ 20, "HANDLE_KILLPRIV")
    ∷ (2 ^ 21, "HANDLE_KILLPRIV_V2")
    ∷ (2 ^ 23, "CACHE_SYMLINKS")
    ∷ (2 ^ 24, "NO_OPENDIR_SUPPORT")
    ∷ (2 ^ 25, "EXPLICIT_INVAL_DATA")
    ∷ (2 ^ 26, "EXPIRE_ONLY")
    ∷ (2 ^ 27, "SETXATTR_EXT")
    ∷ (2 ^ 28, "DIRECT_IO_ALLOW_MMAP")
    ∷ (2 ^ 29, "PASSTHROUGH")
    ∷ (2 ^ 30, "NO_EXPORT_SUPPORT")
    ∷ []

unfoldable pub names_of : ℕ → List (ℕ × String) → List String
names_of capable [] = []
names_of capable ((flag, name) ∷ rest) =
    let names = names_of capable rest in if and_word capable flag == 0 then names else name ∷ names

unfoldable pub get_capability_names : InitBridge → List String
get_capability_names b = elim b.connection_info [
  | none ↦ []
  | some info ↦ names_of info.capable capabilities
]

-- The loop over the 32 bits, with `left` to go from bit `i` on.
unfoldable pub caps_from : ℕ → ℕ → ℕ → List ℕ
caps_from zero i capable = []
caps_from (suc left) i capable =
    let caps = caps_from left (suc i) capable in
    if and_word capable (2 ^ i) == 0 then caps else 2 ^ i ∷ caps

unfoldable pub caps_array : ℕ → List ℕ
caps_array capable = caps_from 32 0 capable

abbrev pub to_array : List JsValue → Values
to_array [] = nil
to_array (v ∷ vs) = cons v (to_array vs)

-- The objects for JavaScript.
unfoldable pub connection_object : ConnectionInfo → JsValue
connection_object c = object_of (
    ("protoMajor", number (of_nat c.proto_major))
    ∷ ("protoMinor", number (of_nat c.proto_minor))
    ∷ ("capable", number (of_nat c.capable))
    ∷ ("want", number (of_nat c.want))
    ∷ ("maxWrite", number (of_nat c.max_write))
    ∷ ("maxRead", number (of_nat c.max_read))
    ∷ ("maxReadahead", number (of_nat c.max_readahead))
    ∷ ("maxBackground", number (of_nat c.max_background))
    ∷ ("congestionThreshold", number (of_nat c.congestion_threshold))
    ∷ ("timeGranNs", number (of_nat c.time_gran))
    ∷ ("caps", array (to_array (map (λ cap. number (of_nat cap)) (caps_array c.capable))))
    ∷ [])

unfoldable pub config_object : FuseConfig → JsValue
config_object c = object_of (
    ("setGid", number (of_int c.set_gid))
    ∷ ("gid", number (of_nat c.gid))
    ∷ ("setUid", number (of_int c.set_uid))
    ∷ ("uid", number (of_nat c.uid))
    ∷ ("setMode", number (of_int c.set_mode))
    ∷ ("umask", number (of_nat c.umask))
    ∷ ("entryTimeout", number c.entry_timeout)
    ∷ ("negativeTimeout", number c.negative_timeout)
    ∷ ("attrTimeout", number c.attr_timeout)
    ∷ ("useIno", number (of_int c.use_ino))
    ∷ ("readdirIno", number (of_int c.readdir_ino))
    ∷ ("directIo", number (of_int c.direct_io))
    ∷ ("kernelCache", number (of_int c.kernel_cache))
    ∷ ("autoCache", number (of_int c.auto_cache))
    ∷ ("acAttrTimeoutSet", number (of_int c.ac_attr_timeout_set))
    ∷ ("acAttrTimeout", number c.ac_attr_timeout)
    ∷ ("nullpathOk", number (of_int c.nullpath_ok))
    ∷ ("showHelp", number (of_int c.show_help))
    ∷ ("debug", number (of_int c.debug))
    ∷ [])

-- The arguments of the call that CallJavaScriptCallback posts.
unfoldable pub call_arguments : ConnectionInfo → FuseConfig → List JsValue
call_arguments conn cfg = connection_object conn ∷ config_object cfg ∷ []

unfoldable pub get_connection_info : InitBridge → JsValue
get_connection_info b = elim b.connection_info [ none ↦ null | some info ↦ connection_object info ]

unfoldable pub get_fuse_config : InitBridge → JsValue
get_fuse_config b = elim b.config [ none ↦ null | some config ↦ config_object config ]

abbrev pub available_options : List String
available_options =
    "allow_other" ∷ "allow_root" ∷ "auto_unmount" ∷ "default_permissions" ∷ "dev" ∷ "nodev" ∷ "suid"
    ∷ "nosuid" ∷ "ro" ∷ "rw" ∷ "exec" ∷ "noexec" ∷ "sync" ∷ "async" ∷ "atime" ∷ "noatime"
    ∷ "diratime" ∷ "nodiratime" ∷ "relatime" ∷ "norelatime" ∷ "strictatime" ∷ "nostrictatime"
    ∷ "uid" ∷ "gid" ∷ "umask" ∷ "entry_timeout" ∷ "negative_timeout" ∷ "attr_timeout"
    ∷ "ac_attr_timeout" ∷ "auto_cache" ∷ "noauto_cache" ∷ "cache_timeout" ∷ "max_write" ∷ "max_read"
    ∷ "max_readahead" ∷ "async_read" ∷ "sync_read" ∷ "atomic_o_trunc" ∷ "big_writes"
    ∷ "no_remote_lock" ∷ "no_remote_flock" ∷ "no_remote_posix_lock" ∷ "splice_write" ∷ "splice_move"
    ∷ "splice_read" ∷ []

abbrev pub default_options : List String
default_options = "default_permissions" ∷ "auto_unmount" ∷ "async_read" ∷ "atomic_o_trunc" ∷ []

-- The elements that are numbers, as 32-bit words.
unfoldable pub number_caps : List JsValue → List ℕ
number_caps [] = []
number_caps (number n ∷ vs) = n.uint32_value ∷ number_caps vs
number_caps (v ∷ vs) = number_caps vs

-- The calls from JavaScript: `none` is a type error.
unfoldable pub check_capabilities_call : InitBridge → List JsValue → Option Bool
check_capabilities_call b (array vs ∷ rest) =
    some (check_capabilities b (number_caps (elements vs)))
check_capabilities_call b args = none

unfoldable pub set_init_callback_call : InitBridge → List JsValue → Option InitBridge
set_init_callback_call b (JsValue.function ∷ rest) = some (set_init_callback b true)
set_init_callback_call b args = none
