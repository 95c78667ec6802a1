-- ===== src/Telnet.antt =====
-- pkg/telnet: the client and the filter of its stream.
pub mod Iac
pub mod Client
pub mod Server
