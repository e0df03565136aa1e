-- ===== src/Base.antt =====
-- The base library of the server: the event loop over libev and the socket calls.
pub mod EventLoop
pub mod Queue
pub mod Log
pub mod Conf
pub mod Socket
