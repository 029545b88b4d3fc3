-- ===== src/Sdp.antt =====
-- SDP text: the parser, the builder, the typed views and the edits of modules/wl2_sdp/src/sdp.cpp.
pub mod Lines
pub mod Numbers
pub mod Parse
pub mod Build
pub mod Views
pub mod Munge
pub mod Compare
pub mod Tests
