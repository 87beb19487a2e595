-- ===== src/Speech.antt =====
-- internal/tts and internal/stt: the prompts that are played into calls and the transcripts of what
-- was recorded.
pub mod Prompt
pub mod Transcript
mod Examples
