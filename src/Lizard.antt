-- ===== src/Lizard.antt =====
-- AutoTpmEncrypt/LizardShell.py: a terminal in a terminal, with a keyboard below it.
pub mod State
pub mod Layout
pub mod Keyboard
pub mod Escape
pub mod Worker
pub mod Bounds
pub mod Threads
mod Tests
