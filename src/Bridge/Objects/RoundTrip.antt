-- ===== src/Bridge/Objects/RoundTrip.antt =====
-- `struct fuse_file_info` and `struct stat` through objects and back, of src/napi_helpers.cc.
use fuse_native.Base.{ℕ, ◌*◌, ◌^◌, ◌%◌, ◌<◌, ◌≡◌, false, some, arith}
use fuse_native.Base.Int.{ℤ, pos, negsuc, to_u64}
use fuse_native.Timespec.{Timespec, timespec_to_ns, ns_to_timespec}
use fuse_native.Timespec.Codec.{epoch_word-at}
use fuse_native.Bridge.Js.{of_int, big_u64}
use fuse_native.Bridge.Objects.FileInfos.{
  FileInfo, file_info_to_object, object_to_file_info, read_u64_bigint_or_number,
}
use fuse_native.Bridge.Objects.Stats.{
  Stat, stat_to_object, object_to_stat, or_zero_time, int64_field,
}

-- The values of an int32_t.
abbrev IsI32 : ℤ → Type 0
IsI32 (pos n) = n < 2 ^ 31
IsI32 (negsuc n) = n < 2 ^ 31

int32_value-of_int : (a : ℤ) → IsI32 a → (of_int a).int32_value ≡ a
int32_value-of_int (pos n) h = ground arith
int32_value-of_int (negsuc n) h = ground arith

word_kept : (n : ℕ) → n < 2 ^ 32 → n % 2 ^ 32 ≡ n
word_kept n h = omega arith

-- A file info of which the fields that the object has no key for are zero.
abbrev pub carried : FileInfo → FileInfo
carried fi = record fi {
  noflush = false;
  parallel_direct_writes = false;
  padding = 0;
  padding2 = 0;
  padding3 = 0;
  backing_id = pos 0;
  compat_flags = 0;
  reserved = (0, 0);
}

-- A file info whose flags fit an int32_t and whose poll events fit a uint32_t is read back from its
-- object with its flags, seven of its bits (writepage to cache_readdir), both 64-bit numbers and its
-- events; noflush, parallel_direct_writes, backing_id, compat_flags and the rest are lost: they are zero.
pub object_to_file_info-file_info_to_object :
    (fi : FileInfo)
    → IsI32 fi.flags
    → fi.poll_events < 2 ^ 32
    → object_to_file_info (file_info_to_object fi) ≡ some (carried fi)
unfolding object_to_file_info file_info_to_object read_u64_bigint_or_number
object_to_file_info-file_info_to_object fi flags events = λ i. some (record (carried fi) {
  flags = int32_value-of_int fi.flags flags i;
  poll_events = word_kept fi.poll_events events i;
})

-- A time without its nanoseconds.
abbrev pub whole_seconds : Timespec → Timespec
whole_seconds ts = record ts { tv_nsec = pos 0 }

-- A time between 1970 and 2554.
abbrev IsTime : Timespec → Type 0
IsTime ts = (sec : ℕ) × (ts.tv_sec ≡ pos sec) × (sec * 1_000_000_000 < 2 ^ 64)

time_kept :
    (ts : Timespec)
    → IsTime ts
    → or_zero_time (ns_to_timespec (some (timespec_to_ns (whole_seconds ts)))) ≡ whole_seconds ts
unfolding ns_to_timespec timespec_to_ns
time_kept ts (sec, e, small) = ground (arith, e, epoch_word-at sec 0)

size_kept :
    (a : ℤ) → (n : ℕ) × (a ≡ pos n) × (n < 2 ^ 63) → int64_field (some (big_u64 (to_u64 a))) ≡ a
size_kept (pos m) h = ground arith
size_kept (negsuc m) h = cc h.1

-- What `struct stat` holds: words of 32 and 64 bits, sizes that are not negative, times.
pub record IsStat (st : Stat) : Type 0 where
  pub mode : st.mode < 2 ^ 32
  pub nlink : st.nlink < 2 ^ 32
  pub uid : st.uid < 2 ^ 32
  pub gid : st.gid < 2 ^ 32
  pub size : (n : ℕ) × (st.size ≡ pos n) × (n < 2 ^ 63)
  pub blksize : IsI32 st.blksize
  pub blocks : (n : ℕ) × (st.blocks ≡ pos n) × (n < 2 ^ 63)
  pub atime : IsTime st.atime
  pub mtime : IsTime st.mtime
  pub ctime : IsTime st.ctime

-- The attributes of a file are what their object is read back as, but for the device and the
-- nanoseconds of the three times, which the object leaves out and which are zero then.
pub object_to_stat-stat_to_object :
    (st : Stat)
    → IsStat st
    → object_to_stat (stat_to_object st)
      ≡ some (record st {
        dev = 0;
        atime = whole_seconds st.atime;
        mtime = whole_seconds st.mtime;
        ctime = whole_seconds st.ctime;
      })
unfolding object_to_stat stat_to_object
object_to_stat-stat_to_object st h = λ i. some (record st {
  dev = 0;
  mode = word_kept st.mode h.mode i;
  nlink = word_kept st.nlink h.nlink i;
  uid = word_kept st.uid h.uid i;
  gid = word_kept st.gid h.gid i;
  size = size_kept st.size h.size i;
  blksize = int32_value-of_int st.blksize h.blksize i;
  blocks = size_kept st.blocks h.blocks i;
  atime = time_kept st.atime h.atime i;
  mtime = time_kept st.mtime h.mtime i;
  ctime = time_kept st.ctime h.ctime i;
})
