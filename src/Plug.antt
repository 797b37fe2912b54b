-- ===== src/Plug.antt =====
-- The plug between a client and the KCP library: wheel/src/KCPPlug.h, with KCP switched on
-- (USE_KCP_CONTROL_TRANSFORM) and off. A pointer with a length is an optional list of bytes.
pub mod Socket
pub mod Messages
pub mod Contents
pub mod Gathering
pub mod Silence
pub mod Tame
use udp_kcp_plugin.Base.{
  ℕ, zero, suc, ◌+◌, ◌-◌, Bool, true, false, Option, none, some, List, [], ◌∷◌, ltb, leb, ◌≡◌, ◌≤◌,
  ℤ, pos, if◌then◌else◌, length,
}
use udp_kcp_plugin.Base.Outcome.{
  Prog, pure, abort, ◌>>=◌, ◌>>◌, out_of_bounds, null_pointer, out_of_fuel,
}
use udp_kcp_plugin.System.{
  Bytes, Handle, Log, Env, kcp_nodelay, kcp_wndsize, kcp_setmtu, kcp_released, kcp_input,
}
use udp_kcp_plugin.System.Calls.{note, send, recv, ikcp_create, ikcp_send, ikcp_recv, ikcp_update}
use udp_kcp_plugin.Buffer.{write_bytes, le_word}

abbrev pub max_udp_mtu : ℕ
max_udp_mtu = 576

-- An `ikcpcb*`; `none` is the null pointer.
abbrev pub Block : Type 0
Block = Option ℕ

-- What reading leaves: a length between two bounds, in a buffer of the same size.
abbrev pub Read : ℕ → ℕ → ℕ → (Bytes × ℕ) × Log → Type 0
Read size low high r = (length r.0.0 ≡ size) × (low ≤ r.0.1) × (r.0.1 ≤ high)

-- `memcpy(&id, data, len)` into 4 bytes that are 0. `none` stands for a negative `len`, which
-- `memcpy` takes for a huge size.
unfoldable pub copy_id : Option Bytes → Prog Log ℕ
copy_id none = abort out_of_bounds
copy_id (some bs) = if leb (length bs) 4 then pure (le_word bs) else abort out_of_bounds

-- The settings of a new block; `kcp->output` is written through the pointer unchecked.
unfoldable pub configure_block : Block → Prog Log Block
configure_block none = abort null_pointer
configure_block (some b) = do
  note (kcp_nodelay b 0 10 0 0)
  note (kcp_wndsize b 128 128)
  note (kcp_setmtu b max_udp_mtu)
  pure (some b)

-- The library calls `kcp->output` for each datagram that it is ready to send.
unfoldable pub output_all : (Bytes → Prog Log ℤ) → List Bytes → Prog Log (Unit {0})
output_all output [] = pure tt
output_all output (p ∷ ps) = do _ ← output p; output_all output ps

-- `if (currLen > 0 && input) ikcp_input(...)`
unfoldable pub input_first : ℕ → Option Bytes → Prog Log (Unit {0})
input_first b (some (x ∷ xs)) = note (kcp_input b (x ∷ xs))
input_first b _ = pure tt

-- `if (currLen > 0 && input) memcpy(...)`, and the length that the reading starts at.
unfoldable pub copy_first : Bytes → Option Bytes → Prog Log (Bytes × ℕ)
copy_first buf (some (x ∷ xs)) = do buf' ← write_bytes buf 0 (x ∷ xs); pure (buf', suc (length xs))
copy_first buf _ = pure (buf, 0)

module _ (e : Env) where
  open e use {build}

  unfoldable pub use_kcp_plug : Bool
  use_kcp_plug = build.with_kcp

  unfoldable pub get_kcp_conv_id : Option Bytes → Prog Log ℕ
  unfolding use_kcp_plug copy_id
  get_kcp_conv_id bytes = if use_kcp_plug then copy_id bytes else pure 1

  unfoldable pub kcp_release : Block → Prog Log (Unit {0})
  unfolding use_kcp_plug
  kcp_release none = pure tt
  kcp_release (some b) = if use_kcp_plug then note (kcp_released b) else pure tt

  unfoldable pub new_kcp_plug_control_block : ℕ → Prog Log Block
  unfolding use_kcp_plug configure_block
  new_kcp_plug_control_block conv =
      if use_kcp_plug then (ikcp_create e conv >>= configure_block) else pure none

  unfoldable pub kcp_update : Block → (Bytes → Prog Log ℤ) → ℕ → Prog Log (Unit {0})
  unfolding use_kcp_plug output_all
  kcp_update none output now = pure tt
  kcp_update (some b) output now =
      if use_kcp_plug then (ikcp_update e b now >>= output_all output) else pure tt

  unfoldable pub kcp_send : Block → Handle → Bytes → Prog Log ℤ
  unfolding use_kcp_plug
  kcp_send none soc bs = if use_kcp_plug then pure (pos 0) else send e soc bs
  kcp_send (some b) soc bs = if use_kcp_plug then ikcp_send e b bs else send e soc bs

  -- `while (1)`: each datagram that waits on the socket goes into the block.
  unfoldable pub feed_socket : ℕ → ℕ → Handle → Prog Log (Unit {0})
  feed_socket zero b soc = abort out_of_fuel
  feed_socket (suc f) b soc = do
    got ← recv e soc max_udp_mtu
    elim got [
      | none ↦ pure tt
      | some [] ↦ pure tt
      | some (x ∷ xs) ↦ (do note (kcp_input b (x ∷ xs)); feed_socket f b soc)
    ]

  -- `while (maxlen > 0)`: messages of the block are put one behind the other.
  unfoldable pub drain_block : ℕ → ℕ → Bytes → ℕ → ℕ → Prog Log (Bytes × ℕ)
  drain_block zero b buf curr_len maxlen =
      if ltb 0 maxlen then abort out_of_fuel else pure (buf, curr_len)
  drain_block (suc f) b buf curr_len maxlen = elim (ltb 0 maxlen) [
    | false ↦ pure (buf, curr_len)
    | true ↦ (do
      got ← ikcp_recv e b maxlen
      elim got [
        | none ↦ pure (buf, curr_len)
        | some bs ↦ (do
          buf' ← write_bytes buf curr_len bs
          drain_block f b buf' (curr_len + length bs) (maxlen - length bs))
      ])
  ]

  -- Without KCP, `while (maxlen > 0)`: what waits on the socket is put behind the input.
  unfoldable pub drain_socket : ℕ → Handle → Bytes → ℕ → ℕ → Prog Log (Bytes × ℕ)
  drain_socket zero soc buf curr_len maxlen =
      if ltb 0 maxlen then abort out_of_fuel else pure (buf, curr_len)
  drain_socket (suc f) soc buf curr_len maxlen = elim (ltb 0 maxlen) [
    | false ↦ pure (buf, curr_len)
    | true ↦ (do
      got ← recv e soc maxlen
      elim got [
        | none ↦ pure (buf, curr_len)
        | some [] ↦ pure (buf, curr_len)
        | some (x ∷ xs) ↦ (do
          buf' ← write_bytes buf curr_len (x ∷ xs)
          drain_socket f soc buf' (curr_len + suc (length xs)) (maxlen - suc (length xs)))
      ])
  ]

  unfoldable pub kcp_recv_with : Block → Handle → Option Bytes → Bytes → ℕ → Prog Log (Bytes × ℕ)
  unfolding feed_socket drain_block input_first
  kcp_recv_with none soc input buf maxlen = pure (buf, 0)
  kcp_recv_with (some b) soc input buf maxlen = do
    input_first b input
    feed_socket build.fuel b soc
    drain_block build.fuel b buf 0 maxlen

  unfoldable pub kcp_recv_without : Handle → Option Bytes → Bytes → ℕ → Prog Log (Bytes × ℕ)
  unfolding drain_socket copy_first
  kcp_recv_without soc input buf maxlen = do
    (buf', curr_len) ← copy_first buf input
    drain_socket maxlen soc buf' curr_len maxlen

  -- The new contents of `outbuff`, and the length that is returned.
  unfoldable pub kcp_recv : Block → Handle → Option Bytes → Bytes → ℕ → Prog Log (Bytes × ℕ)
  unfolding use_kcp_plug kcp_recv_with kcp_recv_without
  kcp_recv block soc input buf maxlen =
      if use_kcp_plug
      then kcp_recv_with block soc input buf maxlen
      else kcp_recv_without soc input buf maxlen
