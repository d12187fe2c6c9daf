-- ===== src/TimeWindow.antt =====
-- pkg/timewindow: the days and the hours in which a node may reboot.
pub mod Days
pub mod Clock
pub mod Window
pub mod Examples
