-- ===== src/Resources.antt =====
-- The resource store of include/wl2/resources.h and src/core/resources.cpp.
pub mod Glob
pub mod Paths
pub mod Mounts
pub mod Store
pub mod Open
pub mod Cache
pub mod Tests
