-- ===== src/Vterm.antt =====
-- internal/vterm: the headless terminal emulator.
pub mod Cell
pub mod Width
pub mod State
pub mod Screen
pub mod Cursor
pub mod Print
pub mod Modes
pub mod Resize
pub mod Params
pub mod Sgr
pub mod Utf8
pub mod Dispatch
pub mod Feed
pub mod Inv
pub mod Snapshot
pub mod Text
pub mod Laws
