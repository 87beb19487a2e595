-- ===== src/Sip.antt =====
-- internal/sip: the harness's SIP stack.
pub mod State
pub mod Message
pub mod Call
pub mod Drain
pub mod Resolver
pub mod Wav
pub mod Stack
pub mod Dtmf
pub mod Observer
pub mod Inbound
pub mod Invite
pub mod SendWav
pub mod SessionExpires
mod Examples
mod LegExamples
