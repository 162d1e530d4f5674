-- ===== src/Stream.antt =====
-- stream_controller.h and stream_controller.c: the module that tunes, selects channels and sets the
-- volume.
pub mod Platform
pub mod State
pub mod Volume
pub mod Channels
pub mod Pids
pub mod Sections
pub mod Deinit
pub mod Config
pub mod Task
pub mod Start
pub mod Tests
