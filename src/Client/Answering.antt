-- ===== src/Client/Answering.antt =====
-- With KCP, what a client in conversation does with the messages that wait.
use udp_kcp_plugin.Base.{
  ℕ, ap, sym, ◌≡◌, ◌∙◌, ◌≢◌, ◌≤◌, subst, true, Option, some, [], ◌∷◌, ◌++◌, arith, length, ltb,
  ◌==◌, if◌then◌else◌,
}
use udp_kcp_plugin.Base.Outcome.{ok, fault, out_of_bounds}
use udp_kcp_plugin.Base.Hoare.{Returns-ok}
use udp_kcp_plugin.System.{Bytes, Log, Env, KcpRecvFits, kcp_sent}
use udp_kcp_plugin.Plug.{Block, kcp_recv, kcp_recv_with, kcp_send, use_kcp_plug}
use udp_kcp_plugin.Plug.Messages.{Quiet}
use udp_kcp_plugin.Plug.Contents.{handed_out, filled, length-filled, written-filled}
use udp_kcp_plugin.Plug.Silence.{NothingSaid, kcp_recv_with-Silent}
use udp_kcp_plugin.Plug.Gathering.{kcp_recv_with-Gathers}
use udp_kcp_plugin.Client.Decimal.{decimal}
use udp_kcp_plugin.Client.{Client, max_client_buff_len, get_kcp_conv_id, client_send, client_recv}
use udp_kcp_plugin.Client.Handshake.{HasRoom}
use udp_kcp_plugin.Client.Echo.{client_recv-echo}
use udp_kcp_plugin.Client.Ends.{kcp_recv-with}

-- What the messages lead to, after the calls that handed them out.
abbrev pub Answers : (ℕ → Bytes → Type 0) → Env → Client → ℕ → Option Bytes → Log → Type 0
Answers Kind e c b input l =
    (got : Bytes) × (l' : Log) × (handed_out l' ≡ handed_out l ++ got)
    × NothingSaid Kind b l l'
    × (length got ≤ max_client_buff_len)
    × (client_recv e c input l ≡ (
        if length got == 0
        then ok (record c { buff = filled c.buff got }, l')
        else if ltb (length got) max_client_buff_len
        then ok (
          record c { buff = filled c.buff (got ++ (0 ∷ [])) },
          kcp_sent b (decimal c.big_id) ∷ l',
        )
        else fault out_of_bounds))

module _ (e : Env) where
  client_send-kcp_sent :
      (c : Client) (b : ℕ) (bs : Bytes) (l : Log)
      → e.build.with_kcp ≡ true
      → get_kcp_conv_id e c ≢ 0
      → c.block ≡ some b
      → client_send e c bs l ≡ ok (e.kcp.send l b bs, kcp_sent b bs ∷ l)
  unfolding client_send kcp_send use_kcp_plug get_kcp_conv_id
  client_send-kcp_sent c b bs l on z k = rw k (ground arith)

  -- With KCP on, where finitely many datagrams and messages wait and the library keeps to the room
  -- it is given, for a client past its handshake with a block and an empty buffer: the buffer gets
  -- the messages that the library hands out in this `Recv`, in their order and all from the
  -- client's block, and the library is given nothing to send meanwhile. Where there are none,
  -- nothing else happens. Where they have 1 to 511 bytes, a zero is put behind them and the last
  -- call gives the block the decimal text of the identity. The bug: where they fill the buffer,
  -- the zero is written past its end.
  pub client_recv-Answers :
      (quiet : Quiet e) (fits : KcpRecvFits e) (Kind : ℕ → Bytes → Type 0) (c : Client) (b : ℕ)
      (input : Option Bytes) (l : Log)
      → e.build.with_kcp ≡ true
      → get_kcp_conv_id e c ≢ 0
      → c.block ≡ some b
      → HasRoom c
      → Answers Kind e c b input l
  client_recv-Answers quiet fits Kind c b input l on done k room =
      let (((buff', n), l'), read, ((got, new, holds, size), most)) =
        Returns-ok _ (kcp_recv_with e c.block c.sock input c.buff max_client_buff_len l) (
          kcp_recv_with-Gathers e quiet fits c.block c.sock input c.buff max_client_buff_len l
            (omega (arith, room.full_size))) in
      let read' : kcp_recv e c.block c.sock input c.buff max_client_buff_len l
          ≡ ok ((filled c.buff got, length got), l') =
        kcp_recv-with e c.block c.sock input c.buff max_client_buff_len l on
        ∙ read
        ∙ (λ i. ok ((holds i, size i), l')) in
      let same : NothingSaid Kind b l l' =
        rw
          (ap (λ (x : Block). kcp_recv_with e x c.sock input c.buff max_client_buff_len l) (sym k)
            ∙ read)
          at (kcp_recv_with-Silent e Kind b c.sock input c.buff max_client_buff_len l) in
      (
        got,
        l',
        new,
        same,
        omega arith,
        subst
            (λ x. client_recv e c input l ≡ (
              if length got == 0
              then ok (record c { buff = filled c.buff got }, l')
              else if ltb (length got) max_client_buff_len
              then ok (record c { buff = x }, kcp_sent b (decimal c.big_id) ∷ l')
              else fault out_of_bounds))
            (written-filled c.buff got (0 ∷ []))
            (client_recv-echo e c input (filled c.buff got) (length got)
              (e.kcp.send l' b (decimal c.big_id)) l l' (kcp_sent b (decimal c.big_id) ∷ l') done
              room read' (length-filled c.buff got (omega (arith, room.full_size)) ∙ room.full_size)
              (client_send-kcp_sent c b (decimal c.big_id) l' on done k)),
      )
