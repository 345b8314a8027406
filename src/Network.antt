-- ===== src/Network.antt =====
-- sources/network: the TCP client and its outbound queue.
pub mod Callback
pub mod Client
pub mod WritePump
