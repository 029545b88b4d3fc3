-- ===== src/Media.antt =====
-- The media descriptors and their wire text: modules/wl2_media/src/media_schema.cpp and schema.h.
pub mod Writer
pub mod Reader
pub mod Strings
pub mod Numbers
pub mod Objects
pub mod Schema
pub mod Timestamp
pub mod Tests
