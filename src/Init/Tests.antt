-- ===== src/Init/Tests.antt =====
-- Runs of the models of src/init_bridge.cc.
use fuse_native.Base.{◌^◌, ◌≡◌, refl, ◌↔◌, true, false, some, [], ◌∷◌, map, All, arith}
use fuse_native.Base.Int.{pos}
use fuse_native.Bridge.Js.{of_nat}
use mathlib.Core.List.{Mem}
use fuse_native.Init.{
  InitBridge, ConnectionInfo, FuseConfig, new_bridge, caps_array, caps_from, check_capabilities,
  get_capability_names, names_of, and_bits, remove_init_callback, set_init_callback, store_init,
  convert_connection_info, convert_config, read_init, all_capable,
}
use fuse_native.Init.Bits.{bit}
use fuse_native.Init.Caps.{check_capabilities_bits}
use fuse_native.Init.Races.{
  System, Step, Reach, start, later, with_bridge, check, calling, checked, stores, sets, reads,
  Tidy, Reach-Tidy, post-remove, removes,
}

abbrev conn : ConnectionInfo
conn = record {
  proto_major = 7;
  proto_minor = 31;
  capable = 0b1010;
  want = 0;
  max_write = 4096;
  max_read = 0;
  max_readahead = 4096;
  max_background = 12;
  congestion_threshold = 9;
  time_gran = 1;
  reserved = [];
}

abbrev cfg : FuseConfig
cfg = record {
  set_gid = pos 0;
  gid = 0;
  set_uid = pos 0;
  uid = 0;
  set_mode = pos 0;
  umask = 0;
  entry_timeout = of_nat 1;
  negative_timeout = of_nat 0;
  attr_timeout = of_nat 1;
  use_ino = pos 0;
  readdir_ino = pos 0;
  direct_io = pos 0;
  kernel_cache = pos 0;
  auto_cache = pos 0;
  ac_attr_timeout_set = pos 0;
  ac_attr_timeout = of_nat 0;
  nullpath_ok = pos 0;
  show_help = pos 0;
  debug = pos 0;
}

abbrev connected : InitBridge
connected = record new_bridge { connection_info = some conn }

names_lem : get_capability_names connected ≡ "POSIX_LOCKS" ∷ "ATOMIC_O_TRUNC" ∷ []
unfolding get_capability_names names_of and_bits
names_lem = refl

caps_lem : caps_array 0b1010 ≡ 2 ∷ 8 ∷ []
unfolding caps_array caps_from and_bits
caps_lem = refl

-- A capability of two bits is found with one of them.
two_bits : check_capabilities connected (0b11 ∷ []) ≡ true
unfolding check_capabilities all_capable and_bits
two_bits = refl

check_capabilities_bits_example :
    (check_capabilities connected (map (λ i. 2 ^ i) (1 ∷ 3 ∷ [])) ≡ true)
    ↔ All (λ i. bit i 0b1010 ≡ 1) (1 ∷ 3 ∷ [])
check_capabilities_bits_example =
    check_capabilities_bits connected conn (1 ∷ 3 ∷ []) (omega arith) refl

abbrev at_check : System
at_check = record {
  bridge = store_init (set_init_callback new_bridge true) (some conn) (some cfg);
  phase = calling conn cfg;
  posted = [];
}

abbrev first_call : Reach at_check
unfolding store_init convert_connection_info convert_config read_init set_init_callback
first_call = later (later (later start (sets true)) (stores conn cfg refl)) (reads refl)

Reach-Tidy_example : Tidy (with_bridge at_check (remove_init_callback at_check.bridge)).bridge
Reach-Tidy_example = Reach-Tidy (later first_call removes)

post-remove_example :
    let checked_state = check at_check conn cfg in
    let removed = with_bridge checked_state (remove_init_callback checked_state.bridge) in
    (removed.phase ≡ checked conn cfg)
    × (s' : System) × Step removed s'
    × Reach s'
    × (s'.posted ≡ (at_check.bridge.function, false) ∷ at_check.posted)
    × Mem at_check.bridge.function s'.bridge.closed
unfolding store_init set_init_callback
post-remove_example = post-remove conn cfg first_call refl refl
