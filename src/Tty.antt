-- ===== src/Tty.antt =====
-- device/tty: the driver of the serial line.
pub mod Control
pub mod Input
pub mod Output
pub mod Lines
pub mod Edits
pub mod Puts
pub mod Cooked
pub mod Editing
mod Tests
