-- ===== src/Net.antt =====
-- What the program uses of Go's package `net`: addresses, masks, and networks.
pub mod Ip
pub mod Mask
pub mod Prefix
pub mod Texts
pub mod Examples
