-- ===== src/Client/Handshake.antt =====
-- How a conversation starts: `CheckKcpPlug`, through `Recv`, on both sides.
use udp_kcp_plugin.Base.{
  ℕ, ◌≤◌, ◌<◌, ◌≡◌, true, Option, none, some, ◌∷◌, arith, u32_mod, length, ◌⊎◌, inl, inr, leb,
  Bool-cases,
}
use udp_kcp_plugin.Base.Outcome.{ok, fault, out_of_bounds}
use udp_kcp_plugin.System.{
  Bytes, Log, Env, received, sent, kcp_created, kcp_nodelay, kcp_wndsize, kcp_setmtu,
}
use udp_kcp_plugin.Buffer.{u32_bytes, le_word}
use udp_kcp_plugin.Buffer.Laws.{
  written, write_bytes-fits, write_bytes-overflow, le_word-u32_bytes, length-u32_bytes,
}
use udp_kcp_plugin.Plug.{get_kcp_conv_id as conv_id_of, new_kcp_plug_control_block}
use udp_kcp_plugin.Client.{
  Client, accepted, connecting, client_recv, check_kcp_plug, take_conv, set_kcp_conv_id,
  max_client_buff_len, start_conv,
}

-- The calls that make and set up a block, newest first.
abbrev pub made_block : ℕ → ℕ → Log → Log
made_block conv b l =
    kcp_setmtu b 576
    ∷ kcp_wndsize b 128 128
    ∷ kcp_nodelay b 0 10 0 0
    ∷ kcp_created conv (some b)
    ∷ l

-- A client that has no conversation and no block.
pub record IsNew (c : Client) : Type 0 where
  pub no_conv : c.conv_id ≡ 0
  pub no_block : c.block ≡ none

-- The buffer is whole and empty.
pub record HasRoom (c : Client) : Type 0 where
  pub full_size : length c.buff ≡ max_client_buff_len
  pub at_start : c.buff_offset ≡ 0

module _ (e : Env) (on : e.build.with_kcp ≡ true) where
  pub conv_id_of-u32_bytes :
      (n : ℕ) (l : Log) → n < u32_mod → conv_id_of e (some (u32_bytes n)) l ≡ ok (n, l)
  unfolding conv_id_of
  conv_id_of-u32_bytes n l h = ground (arith, length-u32_bytes n, le_word-u32_bytes n h)

  pub set_kcp_conv_id-new :
      (c : Client) (id b : ℕ) (l : Log)
      → IsNew c
      → e.kcp.create l id ≡ some b
      → set_kcp_conv_id e c id l ≡ ok (record c { conv_id = id; block = some b }, made_block id b l)
  unfolding set_kcp_conv_id new_kcp_plug_control_block
  set_kcp_conv_id-new c id b l v h = ground arith

  -- With KCP on, where the library has a block for it: a client that was accepted, that has no
  -- conversation and no block and whose identity has 32 bits answers the first datagram, whatever that
  -- holds, with the four bytes of its identity and takes the identity for its conversation; it makes a
  -- block for it, and nothing else of it changes. The datagram itself is dropped.
  pub client_recv-accepted :
      (c : Client) (input : Option Bytes) (b : ℕ) (l : Log)
      → IsNew c
      → c.kind ≡ some accepted
      → c.big_id < u32_mod
      → e.kcp.create l c.big_id ≡ some b
      → client_recv e c input l
        ≡ ok (
          record c { conv_id = c.big_id; block = some b },
          sent c.sock (u32_bytes c.big_id) ∷ made_block c.big_id b l,
        )
  unfolding client_recv
  client_recv-accepted c input b l v k h m =
      ground (arith, conv_id_of-u32_bytes c.big_id l h, set_kcp_conv_id-new c c.big_id b l v m)

  pub connecting-ok :
      (c c' : Client) (input : Option Bytes) (l l' : Log)
      → IsNew c
      → c.kind ≡ some connecting
      → take_conv e c input l ≡ ok (c', l')
      → client_recv e c input l ≡ ok (c', l')
  unfolding check_kcp_plug client_recv start_conv
  connecting-ok c c' input l l' v k h = ground arith

  connecting-fault :
      (c : Client) (input : Option Bytes) (l : Log)
      → IsNew c
      → c.kind ≡ some connecting
      → take_conv e c input l ≡ fault out_of_bounds
      → client_recv e c input l ≡ fault out_of_bounds
  unfolding check_kcp_plug client_recv start_conv
  connecting-fault c input l v k h = ground arith

  pub take_conv-short :
      (c : Client) (input : Option Bytes) (bs : Bytes) (b : ℕ) (l : Log)
      → e.build.is_linux ≡ true
      → IsNew c
      → HasRoom c
      → e.os.recv l c.sock max_client_buff_len ≡ some bs
      → length bs ≤ 4
      → e.kcp.create (received c.sock (some bs) ∷ l) (le_word bs) ≡ some b
      → take_conv e c input l
        ≡ ok (
          record c { buff = written c.buff 0 bs; conv_id = le_word bs; block = some b },
          made_block (le_word bs) b (received c.sock (some bs) ∷ l),
        )
  unfolding take_conv conv_id_of set_kcp_conv_id new_kcp_plug_control_block
  take_conv-short c input bs b l x v f r h m =
      ground (arith, write_bytes-fits c.buff 0 bs (received c.sock (some bs) ∷ l) (omega arith))

  -- The id of 4 bytes is overrun.
  take_conv-long :
      (c : Client) (input : Option Bytes) (bs : Bytes) (l : Log)
      → e.build.is_linux ≡ true
      → HasRoom c
      → e.os.recv l c.sock max_client_buff_len ≡ some bs
      → 4 < length bs
      → take_conv e c input l ≡ fault out_of_bounds
  unfolding take_conv conv_id_of
  take_conv-long c input bs l x f r h = elim (Bool-cases (leb (length bs) max_client_buff_len)) [
    | inl t ↦
        ground (arith, write_bytes-fits c.buff 0 bs (received c.sock (some bs) ∷ l) (ground arith))
    | inr t ↦
        ground
          (arith, write_bytes-overflow c.buff 0 bs (received c.sock (some bs) ∷ l) (ground arith))
  ]

  -- The bug: on Linux with KCP on, a client that connected, has no conversation and no block and has an
  -- empty buffer overruns the four bytes of `id` in its next `Recv` whenever the datagram that waits is
  -- longer than four bytes, and also when `recv` fails, since the length -1 then goes to `memcpy`.
  pub client_recv-overrun :
      (c : Client) (input : Option Bytes) (l : Log)
      → e.build.is_linux ≡ true
      → IsNew c
      → HasRoom c
      → c.kind ≡ some connecting
      → (e.os.recv l c.sock max_client_buff_len ≡ none)
        ⊎ ((bs : Bytes) × (e.os.recv l c.sock max_client_buff_len ≡ some bs) × (4 < length bs))
      → client_recv e c input l ≡ fault out_of_bounds
  unfolding client_recv take_conv conv_id_of
  client_recv-overrun c input l x v f k (inl r) = ground arith
  client_recv-overrun c input l x v f k (inr (bs, r, h)) =
      connecting-fault c input l v k (take_conv-long c input bs l x f r h)
