-- ===== src/Address/Laws.antt =====
-- How far `make_unique_id` tells peers apart.
use udp_kcp_plugin.Base.{ℕ, ◌+◌, ◌*◌, ◌^◌, ◌<◌, ◌≡◌, ◌↔◌, ◌⊎◌, arith, u32_mod, u16_mod}
use udp_kcp_plugin.System.{Addr}
use udp_kcp_plugin.Address.{make_unique_id, IsAddr}

-- The sum of the two fields, before it wraps.
abbrev pub weight : Addr → ℕ
weight a = a.ip + a.port * 2 ^ 16

-- For two addresses whose fields are in range, the identities are equal exactly when the sums of IP
-- and shifted port are equal or differ by one turn of 2^32.
pub make_unique_id_iff :
    (a b : Addr)
    → IsAddr a
    → IsAddr b
    → (make_unique_id a ≡ make_unique_id b)
      ↔ ((weight a ≡ weight b) ⊎ (weight a ≡ weight b + u32_mod) ⊎ (weight b ≡ weight a + u32_mod))
unfolding make_unique_id
make_unique_id_iff a b v w = (λ h. omega arith, λ h. omega arith)

-- Two peers in range that share an identity have the same IP exactly if they have the same port: a
-- collision needs both to differ.
make_unique_id_separates :
    (a b : Addr)
    → IsAddr a
    → IsAddr b
    → make_unique_id a ≡ make_unique_id b
    → (a.ip ≡ b.ip) ↔ (a.port ≡ b.port)
unfolding make_unique_id
make_unique_id_separates a b v w h = (λ i. omega arith, λ p. omega arith)

-- The bug: a peer whose IP is larger by k * 2^16 shares the identity of the peer whose port is
-- larger by k, for every k that leaves both in range.
pub make_unique_id_collides :
    (ip port k : ℕ)
    → ip + k * 2 ^ 16 < u32_mod
    → port + k < u16_mod
    → make_unique_id (record { ip = ip + k * 2 ^ 16; port = port })
      ≡ make_unique_id (record { ip = ip; port = port + k })
unfolding make_unique_id
make_unique_id_collides ip port k h p = omega arith

-- An identity has 32 bits.
pub make_unique_id-lt : (a : Addr) → make_unique_id a < u32_mod
unfolding make_unique_id
make_unique_id-lt a = omega arith
