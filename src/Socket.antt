-- ===== src/Socket.antt =====
-- pkg/socket: the four endpoints over TCP and UDP.
pub mod TcpClient
pub mod UdpClient
pub mod TcpServer
pub mod UdpServer
