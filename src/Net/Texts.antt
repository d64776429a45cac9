-- ===== src/Net/Texts.antt =====
-- The texts of addresses, which package net and package fmt write and read: an interface, with what the
-- documentation says of them on the addresses and ports that the program writes.
use magic_tun.Base.{ℕ, ◌^◌, ◌<◌, ◌≡◌, Option, some, List}
use magic_tun.Net.Ip.{to16}
use magic_tun.Net.Prefix.{shorten}
use magic_tun.Wire.Address.{IsAddress}

-- net.SplitHostPort, net.JoinHostPort, net.ParseIP, IP.String, and Sprintf and Sscanf with "%d" on a
-- uint16. A nil IP and an error are `none`.
pub record Texts : Type 0 where
  pub split_host_port : List ℕ → Option (List ℕ × List ℕ)
  pub join_host_port : List ℕ → List ℕ → List ℕ
  pub parse_ip : List ℕ → Option (List ℕ)
  pub ip_string : List ℕ → List ℕ
  pub decimal : ℕ → List ℕ
  pub scan_port : List ℕ → Option ℕ

-- The text of an address and a port
abbrev pub target_of : Texts → List ℕ → ℕ → List ℕ
target_of t ip port = t.join_host_port (t.ip_string ip) (t.decimal port)

-- An address and a port are read back from their texts, the address in its 16-byte form; and the forms
-- of an address have the same text.
pub record IsTexts (t : Texts) : Type 0 where
  pub split :
      (ip : List ℕ) (port : ℕ)
      → IsAddress ip
      → t.split_host_port (target_of t ip port) ≡ some (t.ip_string ip, t.decimal port)
  pub parse : (ip : List ℕ) → IsAddress ip → t.parse_ip (t.ip_string ip) ≡ to16 ip
  pub scan : (port : ℕ) → port < 2 ^ 16 → t.scan_port (t.decimal port) ≡ some port
  pub same_long : (ip a : List ℕ) → to16 ip ≡ some a → t.ip_string a ≡ t.ip_string ip
  pub same_short : (ip : List ℕ) → IsAddress ip → t.ip_string (shorten ip) ≡ t.ip_string ip
