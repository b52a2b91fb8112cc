-- ===== src/Record.antt =====
-- internal/recordstore and internal/recordcleaner: the segments of a recording, and their removal.
pub mod Segments
pub mod Sorting
pub mod Window
pub mod Cleaner
pub mod Removal
pub mod Interval
pub mod Offset
pub mod Roundtrip
