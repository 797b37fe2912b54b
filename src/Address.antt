-- ===== src/Address.antt =====
-- The identity of a peer: `MakeUniqueID` of wheel/src/wucomm.h, and the byte order of ports.
pub mod Laws
use udp_kcp_plugin.Base.{ℕ, ◌+◌, ◌*◌, ◌/◌, ◌%◌, ◌^◌, ◌<◌, u32_mod, u16_mod}
use udp_kcp_plugin.System.{Addr}

-- `uint32(address.sin_addr.s_addr) + (uint32(address.sin_port) << (sizeof(address.sin_port) * 8))`
unfoldable pub make_unique_id : Addr → ℕ
make_unique_id a = (a.ip + a.port * 2 ^ 16 % u32_mod) % u32_mod

-- The fields are a uint32 and a uint16.
pub record IsAddr (a : Addr) : Type 0 where
  pub ip_fits : a.ip < u32_mod
  pub port_fits : a.port < u16_mod

-- `htons` on a little-endian machine.
unfoldable pub htons : ℕ → ℕ
htons p = p % 256 * 256 + p / 256 % 256
