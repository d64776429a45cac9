-- ===== src/Transport.antt =====
-- transport/: the frames on a connection (Frame, of frame.go) and the streams that share it (Conn, of
-- conn.go).
pub mod Frame
pub mod Conn
mod Examples
