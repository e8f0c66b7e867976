-- ===== src/Anytls/Session.antt =====
-- src/anytls/session.rs: a session, its frames in both directions and the streams it serves. The locks
-- are free of contention here: a handler runs from its start to its end.
pub mod Wire
pub mod Writes
pub mod Padded
pub mod Receive
pub mod Streams
pub mod Loop
pub mod Opening
pub mod Draining
pub mod Frames
pub mod Running
pub mod Forward
