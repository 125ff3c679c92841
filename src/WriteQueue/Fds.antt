-- ===== src/WriteQueue/Fds.antt =====
-- The queues of several file descriptors side by side, of src/write_queue.cc.
