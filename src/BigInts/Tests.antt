-- ===== src/BigInts/Tests.antt =====
-- Runs of the models of src/napi_bigint.cc.
use fuse_native.Base.{◌-◌, ◌^◌, ◌≡◌, refl, true, false, none, some}
use fuse_native.Base.Int.{negsuc, IsI64}
use fuse_native.BigInts.{bigint, other, bigint_to_u64, bigint_to_offset}
use fuse_native.BigInts.Ranges.{bigint_to_offset_lem}

-- What is lost is written all the same.
lossy : bigint_to_u64 (bigint (negsuc 0)) true ≡ (false, some (2 ^ 64 - 1))
unfolding bigint_to_u64
lossy = refl

bigint_to_offset_example :
    (IsI64 (negsuc 4) → bigint_to_offset (bigint (negsuc 4)) true ≡ (true, some (negsuc 4)))
    × (¬ IsI64 (negsuc 4) → bigint_to_offset (bigint (negsuc 4)) true ≡ (false, none))
    × (bigint_to_offset other true ≡ (false, none))
bigint_to_offset_example = bigint_to_offset_lem (negsuc 4)
