-- ===== src/File.antt =====
-- pkg/file: the upload of files in chunks and the reads of ranges.
pub mod Digits
pub mod Names
pub mod Upload
pub mod Save
pub mod Text
pub mod Copy
pub mod Range
pub mod Atomic
