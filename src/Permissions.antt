-- ===== src/Permissions.antt =====
-- PermissionSet of include/wl2/runtime.h and src/core/permissions.cpp: whether what a program asks
-- for lies inside what has been approved.
pub mod Paths
pub mod Endpoints
pub mod Sets
pub mod Tests
