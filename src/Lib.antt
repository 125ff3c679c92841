-- ===== src/Lib.antt =====
-- Verification library of the native layer of fuse-native, the C++ code under src/ of the repository.
--
-- The native layer binds libfuse to Node: a session owns a FUSE loop, a dispatcher carries the
-- callbacks of the loop to JavaScript, a write queue for each file descriptor orders the writes, and a
-- shutdown manager drains and unmounts all of this. The smaller files convert values.
--
--   Base        names, tests on numbers, lists, signed integers with their 64-bit words, and the choice
--               of a top among the elements of a list (Choice).
--   Errno       src/errno_mapping.cc. Linux's numbers stand for the constants of errno.h.
--   Session     src/session_manager.cc and .h. The states of a session with its locks and its thread; what
--               libfuse and the bridge answer are arguments. Loop has the FUSE loop as a list of what each
--               round sees, Registry the sessions with the functions that JavaScript calls, and Calls
--               histories of these.
--   Shutdown    src/shutdown.cc and .h. The manager's state; the run of a shutdown takes the times, the
--               outcomes of cleanups and the answers of checks as parameters. state_mutex_ is not
--               recursive: a thread that locks it twice never returns. Sessions has the registry, Calls
--               the functions that JavaScript calls.
--   Timespec    src/timespec_codec.cc. Both fields are integers, converted to 64-bit words as in the
--               source. The loop of normalize_timespec has one round more than |tv_nsec|, and each round
--               adds a second. A signed overflow, undefined in the source, gives the exact integer.
--               Text has the texts of times as bytes, with what snprintf and std::stoll do to them; the
--               loop on the digits of n has n + 1 rounds, since each divides by 10.
--   CopyRange   src/copy_file_range.cc and .h. The kernel's calls on a world are a parameter, Files; what
--               the copy relies on in pread and pwrite is Writes.IsFiles. The outer loop has a round
--               for each byte and one more, the inner one too, since a round that goes on moves at
--               least one byte; an interrupted write takes one of the rounds added for it.
--               Choice has the kernel's copy and the JavaScript functions.
--   Dispatcher  src/tsfn_dispatcher.cc and .h. What a mutex or an atomic makes one step is a function of
--               the state; System interleaves the steps of callers, workers and Node's thread, Shutdown
--               is its end, where no other thread calls it meanwhile, Pending has the waits, Drain
--               the ways to an end of all callbacks, Listed the map's entries by their ids, and Told whom
--               a shutdown tells.
--               Node's thread-safe functions are a list of the callbacks handed to them and not yet run.
--   WriteQueue  src/write_queue.cc and .h. FdWriteQueue is the state of an FDWriteQueue, each method a
--               function of it; Manager has WriteQueueManager and the global manager, Napi EnqueueWrite.
--               The loops of ProcessQueue and CancelAll have a round for each queued operation,
--               since each takes one out. What std::priority_queue leaves open,
--               the choice among equal tops, is the parameter Selection; Select has an instance.
--   Bridge      src/fuse_bridge.cc and .h, and the objects of src/napi_helpers.cc. Js has JavaScript's
--               values, Objects the attributes and file infos as objects, Answers, Dirs and Xattrs what a
--               handler's result is replied with, Handlers the arguments of each handler's call, Polls the
--               poll handles, WriteBufs the pieces of a write, Requests the registry and the way to the
--               dispatcher, Life and Replies a request until its reply. The contexts of INIT and
--               DESTROY have no request. Parameters: fuse_add_direntry and its
--               plus form, UTF-8, pread, what fuse_reply_data returns, and how the dispatcher is set
--               up. A loop over pread has a round for each byte that is wanted, since a round that goes
--               on reads at least one. Registry has the dispatcher called by the bridge alone.
--               Globals has the global dispatcher with the functions that JavaScript calls. Closing and
--               Forgets compose the bridge with the dispatcher, around a shutdown.
--   Buffers     src/buffer_bridge.cc and .h. Contents are lists of bytes; what aligned_alloc and Node give
--               are arguments. Ranges has the slices and sizes, Copies the loop of CopyBuffer.
--   BigInts     src/napi_bigint.cc. A BigInt is an integer; the words that Node reads are computed from it.
--   Xattr       src/xattr_bridge.cc, as it is built on Linux. The system calls on attributes and the
--               conversion to UTF-8 are parameters. ParseAttributeList has a round for each byte, since
--               each name takes at least its terminator.
--   Init        src/init_bridge.cc. The FUSE_CAP_ bits have libfuse 3's numbers. Races interleaves Node's
--               thread with that of libfuse, and its states are those that the steps reach.
--
-- What is not modelled: N-API values beyond what the code reads of them, libfuse and the kernel, the
-- latencies and other doubles, the life of the bridge object and its references that keep buffers
-- alive, the finalizers of buffers and the sharing of bytes between a buffer and its slices, the
-- conversions of single values in src/napi_helpers.cc and of a BigInt to a text, JavaScript's dates and
-- the clock in src/timespec_codec.cc, logging (src/logging.cc), the entry of the module (src/main.cc),
-- the TypeScript layer under ts/, and fuse-docs, a copy of libfuse.
pub mod Base
pub mod BigInts
pub mod Bridge
pub mod Buffers
pub mod CopyRange
pub mod Dispatcher
pub mod Errno
pub mod Init
pub mod Session
pub mod Shutdown
pub mod Timespec
pub mod WriteQueue
pub mod Xattr
