-- ===== src/Recording.antt =====
-- internal/recording/archive.go: recorded call legs as WAV files under stable names.
pub mod Wav
pub mod Sanitize
pub mod Segment
pub mod Archiver
mod Examples
