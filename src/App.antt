-- ===== src/App.antt =====
-- tv_app.c: the remote controller's keys, and the modules that they drive.
pub mod Keypad
pub mod Remote
pub mod Screen
pub mod Television
pub mod Steps
pub mod Main
pub mod Older
mod Tests
