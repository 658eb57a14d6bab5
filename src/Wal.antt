-- ===== src/Wal.antt =====
-- wal/wal.go: the write-ahead log. `Payload` and `Segment` are its byte formats and their readers,
-- `Log` the segmented log on disk.
pub mod Payload
pub mod Segment
pub mod Log
