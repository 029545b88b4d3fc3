-- ===== src/Resolver.antt =====
-- Native modules and their dependencies: include/wl2/module_resolver.h and
-- src/core/module_resolver.cpp.
pub mod Versions
pub mod Choice
pub mod Graph
pub mod Source
pub mod Metadata
pub mod MetadataTests
pub mod Tests
