-- ===== src/Bridge/Routes.antt =====
-- Which JavaScript handler a setattr request of src/fuse_bridge.cc goes to.
use fuse_native.Base.{ℕ, ◌==◌, ◌||◌, ◌&&◌, ◌≡◌, Bool, Option, none, some, arith, if◌then◌else◌}
use fuse_native.Bridge
use fuse_native.Bridge.{FuseOpType}
use fuse_native.Bridge.Objects.Stats.{Stat}
use fuse_native.Bridge.Objects.FileInfos.{FileInfo}
use fuse_native.Bridge.Tasks.{Caller, Handled, processed, replied_now, no_reply, bit, without}
use fuse_native.Bridge.Handlers.Attrs.{
  handle_setattr, handle_chown, handle_chmod, handle_truncate, set_attributes,
}

-- The handler that a request is dispatched to.
abbrev pub operation : Handled → Option FuseOpType
operation (processed t) = some t.op_type
operation (replied_now r) = none
operation no_reply = none

-- Bit 0 asks for the mode, bits 1 and 2 for the owner and the group, bit 3 for the size.
abbrev pub route : (FuseOpType → Bool) → ℕ → FuseOpType
route has to_set =
    if (to_set == 2 || to_set == 4 || to_set == 6) && has Bridge.op_chown
    then Bridge.op_chown
    else if to_set == 1 && has Bridge.op_chmod
    then Bridge.op_chmod
    else if to_set == 8 && has Bridge.op_truncate
    then Bridge.op_truncate
    else Bridge.op_setattr

only_owner :
    (w : ℕ) → ((bit 1 w || bit 2 w) && without 1 (without 2 w) == 0) ≡ (w == 2 || w == 4 || w == 6)
only_owner w = ground arith

only_bit_0 : (w : ℕ) → (bit 0 w && without 0 w == 0) ≡ (w == 1)
only_bit_0 w = ground arith

only_bit_3 : (w : ℕ) → (bit 3 w && without 3 w == 0) ≡ (w == 8)
only_bit_3 w = ground arith

-- A change of owner or group or both and of nothing else goes to a chown handler, a change of the mode
-- alone to a chmod handler and a change of the size alone to a truncate handler, where there is one; any
-- other request goes to setattr.
pub handle_setattr-route :
    (has : FuseOpType → Bool) (c : Option Caller) (ino : ℕ) (attr : Stat) (to_set : ℕ)
    (fi : Option FileInfo)
    → operation (handle_setattr has c ino (some attr) to_set fi) ≡ some (route has to_set)
unfolding handle_setattr handle_chown handle_chmod handle_truncate set_attributes
handle_setattr-route has c ino attr to_set fi =
    ground (arith, only_owner to_set, only_bit_0 to_set, only_bit_3 to_set)
