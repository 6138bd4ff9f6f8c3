-- ===== src/Path.antt =====
-- api/src/path.rs: `FilePath`, the hard link manager and `handle_file_path`. The file system is axfs's.
pub mod Hardlinks
pub mod Names
