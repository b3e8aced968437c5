-- ===== src/Vterm/Laws/Faults.antt =====
-- When printing indexes a cell that is not there.
