-- ===== src/Buffer.antt =====
-- Writes into a fixed array, and the bytes of a 32-bit word in memory (little-endian): what the
-- `memcpy` calls of wheel/src/KCPPlug.h and wheel/src/UDPClient.h do.
pub mod Laws
use udp_kcp_plugin.Base.{
  ℕ, ◌+◌, ◌*◌, ◌/◌, ◌%◌, leb, if◌then◌else◌, [], ◌∷◌, ◌++◌, length, take, drop,
}
use udp_kcp_plugin.Base.Outcome.{Prog, pure, abort, out_of_bounds}
use udp_kcp_plugin.System.{Bytes, Log}

-- `memcpy(buf + off, bs, n)`, or what a call that fills `buf + off` writes.
unfoldable pub write_bytes : Bytes → ℕ → Bytes → Prog Log Bytes
write_bytes buf off bs =
    if leb (off + length bs) (length buf)
    then pure (take off buf ++ (bs ++ drop (off + length bs) buf))
    else abort out_of_bounds

unfoldable pub u32_bytes : ℕ → Bytes
u32_bytes n = (n % 256) ∷ (n / 256 % 256) ∷ (n / 65536 % 256) ∷ (n / 16777216 % 256) ∷ []

-- The word whose low bytes are given and whose other bytes are 0.
unfoldable pub le_word : Bytes → ℕ
le_word [] = 0
le_word (b ∷ bs) = b + 256 * le_word bs
