-- ===== src/Webhook.antt =====
-- internal/webhook: the server that answers the hooks of the system under test, for the test that
-- each of them belongs to.
pub mod Json
pub mod Callback
pub mod Correlation
pub mod Registry
pub mod Server
pub mod Socket
pub mod AppSocket
mod Examples
mod SocketExamples
