-- ===== src/Deps.antt =====
-- Git-pinned source dependencies: include/wl2/module_deps.h and src/core/module_deps.cpp.
pub mod Trust
pub mod Shell
pub mod Lockfile
pub mod Locking
pub mod LockText
pub mod Fetch
pub mod Sources
pub mod Transitive
pub mod FetchTests
pub mod LockTests
pub mod Order
pub mod Tests
