-- ===== src/Vterm/Laws.antt =====
-- What single operations of internal/vterm do, beside keeping the terminal valid.
pub mod Scrollback
pub mod Screens
pub mod Tabs
pub mod Printing
pub mod Faults
