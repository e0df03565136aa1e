-- ===== src/Rtc.antt =====
-- The media side of the server: messages, streams and their session descriptions.
pub mod Msg
pub mod Codec
pub mod Sdp
pub mod Peer
pub mod Streams
pub mod Worker
pub mod Server
