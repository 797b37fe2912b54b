-- ===== src/Client/Echo.antt =====
-- What `Recv` does with data, once the handshake is over or KCP is off.
use udp_kcp_plugin.Base.{ℕ, ◌≡◌, ◌≢◌, Option, [], ◌∷◌, ℤ, arith, length, ltb, ◌==◌, if◌then◌else◌}
use udp_kcp_plugin.Base.Outcome.{ok, fault, out_of_bounds}
use udp_kcp_plugin.System.{Bytes, Log, Env}
use udp_kcp_plugin.Buffer.Laws.{written, write_bytes-fits, write_bytes-overflow}
use udp_kcp_plugin.Plug.{kcp_recv}
use udp_kcp_plugin.Client.Decimal.{decimal}
use udp_kcp_plugin.Client.{
  Client, max_client_buff_len, get_kcp_conv_id, client_send, recv_data, client_recv,
}
use udp_kcp_plugin.Client.Handshake.{HasRoom}

module _ (e : Env) where
  pub check_kcp_plug-done :
      (c : Client) (input : Option Bytes) (l : Log)
      → get_kcp_conv_id e c ≢ 0
      → client_recv e c input l ≡ recv_data e c input l
  unfolding client_recv get_kcp_conv_id
  check_kcp_plug-done c input l h = ground arith

  -- The end of `Recv` on every branch, for a client past its handshake with an empty buffer and a
  -- reading that kept the buffer's size. Where nothing was read, only the buffer is new. Where 1 to 511
  -- bytes were read, a zero is put behind them, and the decimal text of the identity is sent, as the
  -- only other effect. The bug: where the buffer was filled, the zero is written past its end.
  pub client_recv-echo :
      (c : Client) (input : Option Bytes) (buff' : Bytes) (n : ℕ) (z : ℤ) (l l' l'' : Log)
      → get_kcp_conv_id e c ≢ 0
      → HasRoom c
      → kcp_recv e c.block c.sock input c.buff max_client_buff_len l ≡ ok ((buff', n), l')
      → length buff' ≡ max_client_buff_len
      → client_send e c (decimal c.big_id) l' ≡ ok (z, l'')
      → client_recv e c input l ≡ (
          if n == 0
          then ok (record c { buff = buff' }, l')
          else if ltb n max_client_buff_len
          then ok (record c { buff = written buff' n (0 ∷ []) }, l'')
          else fault out_of_bounds)
  unfolding recv_data client_send
  client_recv-echo c input buff' n z l l' l'' done room got size s =
      rw (check_kcp_plug-done c input l done) (
        ground
          (arith, write_bytes-fits buff' n (0 ∷ []) l', write_bytes-overflow buff' n (0 ∷ []) l'))
