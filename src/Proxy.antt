-- ===== src/Proxy.antt =====
-- The program in signaling/src, which turns a browser's HTTP request into a request to the server.
pub mod Client
pub mod Push
pub mod Xrpc
