-- ===== src/Buffer/Laws.antt =====
-- Laws of array writes and of words in memory.
use udp_kcp_plugin.Base.{
  ℕ, ◌+◌, ◌≤◌, ◌<◌, ◌%◌, ◌≡◌, refl, ◌++◌, arith, u32_mod, length, take, drop, length-append,
  length-take, length-drop,
}
use udp_kcp_plugin.Base.Outcome.{ok, fault, out_of_bounds}
use udp_kcp_plugin.System.{Bytes, Log}
use udp_kcp_plugin.Buffer.{write_bytes, u32_bytes, le_word}

-- What a write that fits leaves.
abbrev pub written : Bytes → ℕ → Bytes → Bytes
written buf off bs = take off buf ++ (bs ++ drop (off + length bs) buf)

pub write_bytes-fits :
    (buf : Bytes) (off : ℕ) (bs : Bytes) (l : Log)
    → off + length bs ≤ length buf
    → write_bytes buf off bs l ≡ ok (written buf off bs, l)
unfolding write_bytes
write_bytes-fits buf off bs l h = ground arith

pub write_bytes-overflow :
    (buf : Bytes) (off : ℕ) (bs : Bytes) (l : Log)
    → length buf < off + length bs
    → write_bytes buf off bs l ≡ fault out_of_bounds
unfolding write_bytes
write_bytes-overflow buf off bs l h = ground arith

-- A write leaves the array's size.
pub length-written :
    (buf : Bytes) (off : ℕ) (bs : Bytes)
    → off + length bs ≤ length buf
    → length (written buf off bs) ≡ length buf
length-written buf off bs h = omega (
  arith,
  length-append (take off buf) (bs ++ drop (off + length bs) buf),
  length-append bs (drop (off + length bs) buf),
  length-take off buf,
  length-drop (off + length bs) buf,
)

-- A 32-bit word is read back from its bytes.
pub le_word-u32_bytes : (n : ℕ) → n < u32_mod → le_word (u32_bytes n) ≡ n
unfolding le_word u32_bytes
le_word-u32_bytes n h = omega arith

pub le_word-u32_bytes_mod : (n : ℕ) → le_word (u32_bytes n) ≡ n % u32_mod
unfolding le_word u32_bytes
le_word-u32_bytes_mod n = omega arith

pub length-u32_bytes : (n : ℕ) → length (u32_bytes n) ≡ 4
unfolding u32_bytes
length-u32_bytes n = refl
