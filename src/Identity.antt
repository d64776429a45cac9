-- ===== src/Identity.antt =====
-- identity/identity.go: node identifiers. A [16]byte is a list of 16 bytes. KeyFile has the node's key,
-- and PinStore the certificates that it trusts.
pub mod Hex
pub mod KeyFile
pub mod PinStore
mod Examples
use magic_tun.Base.{ℕ, ◌<◌, ◌≡◌, Bool, List, replicate, length, All, bytes_beq}

abbrev pub NodeId : Type 0
NodeId = List ℕ

abbrev pub IsByte : ℕ → Type 0
IsByte b = b < 256

abbrev pub IsNodeId : NodeId → Type 0
IsNodeId id = (length id ≡ 16) × All IsByte id

-- NodeID.Equal
abbrev pub equal : NodeId → NodeId → Bool
equal a b = bytes_beq a b

-- NodeID{}
abbrev pub zero_id : NodeId
zero_id = replicate 16 0

-- NodeID.IsZero
abbrev pub is_zero : NodeId → Bool
is_zero id = bytes_beq id zero_id
