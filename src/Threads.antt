-- ===== src/Threads.antt =====
-- The script-thread tree of include/wl2/thread_tree.h and src/core/thread_tree.cpp.
pub mod Path
pub mod Mailbox
pub mod Reply
pub mod Tree
pub mod Handle
pub mod Answer
pub mod Script
pub mod Tests
