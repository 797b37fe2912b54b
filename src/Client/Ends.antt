-- ===== src/Client/Ends.antt =====
-- With KCP, how a client's `Recv` ends.
use udp_kcp_plugin.Base.{
  ℕ, ◌≡◌, ◌∙◌, ◌≢◌, ◌≤◌, ◌⊎◌, refl, inl, inr, true, Option, none, some, [], ◌∷◌, ℤ, arith, length,
  ltb, ◌==◌, if◌then◌else◌, Bool-cases,
}
use udp_kcp_plugin.Base.Outcome.{ok, fault, out_of_bounds}
use udp_kcp_plugin.Base.Hoare.{Returns, Returns-ok}
use udp_kcp_plugin.System.{Bytes, Handle, Log, Env, KcpRecvFits}
use udp_kcp_plugin.Buffer.Laws.{written, length-written}
use udp_kcp_plugin.Plug.{Block, Read, kcp_recv, kcp_recv_with, kcp_send, use_kcp_plug}
use udp_kcp_plugin.Plug.Messages.{Quiet, kcp_recv_with-Returns}
use udp_kcp_plugin.Client.Decimal.{decimal}
use udp_kcp_plugin.Client.{
  Client, max_client_buff_len, get_kcp_conv_id, real_send, client_send, client_recv,
}
use udp_kcp_plugin.Client.Handshake.{HasRoom}
use udp_kcp_plugin.Client.Echo.{client_recv-echo}

-- All but the contents of the buffer is as it was, and the buffer has its size.
abbrev pub Kept : Client → Client × Log → Type 0
Kept c r = (r.0 ≡ record c { buff = r.0.buff }) × (length r.0.buff ≡ max_client_buff_len)

module _ (e : Env) where
  client_send-ok :
      (c : Client) (bs : Bytes) (l : Log)
      → (z : ℤ) × (l' : Log) × (client_send e c bs l ≡ ok (z, l'))
  unfolding client_send real_send kcp_send
  client_send-ok c bs l = elim (Bool-cases (get_kcp_conv_id e c == 0)) [
    | inl t ↦ simp t (_, _, refl)
    | inr f ↦ simp f (go c.block)
  ]
    where
      go : (b : Block) → (z : ℤ) × (l' : Log) × (kcp_send e b c.sock bs l ≡ ok (z, l'))
      go none = elim (Bool-cases (use_kcp_plug e)) [
        | inl t ↦ simp t (_, _, refl)
        | inr f ↦ simp f (_, _, refl)
      ]
      go (some b) = elim (Bool-cases (use_kcp_plug e)) [
        | inl t ↦ simp t (_, _, refl)
        | inr f ↦ simp f (_, _, refl)
      ]

  pub kcp_recv-with :
      (block : Block) (soc : Handle) (input : Option Bytes) (buf : Bytes) (n : ℕ) (l : Log)
      → e.build.with_kcp ≡ true
      → kcp_recv e block soc input buf n l ≡ kcp_recv_with e block soc input buf n l
  unfolding kcp_recv use_kcp_plug
  kcp_recv-with block soc input buf n l on = ground arith

  -- `Recv` returns and keeps the client, or it has filled the buffer and writes past its end.
  abbrev pub Ending : Client → Option Bytes → Log → Type 0
  Ending c input l =
      Returns (Kept c) (client_recv e c input l)
      ⊎ ((b : Bytes) × (t : Log) × (kcp_recv e c.block c.sock input c.buff max_client_buff_len l
            ≡ ok ((b, max_client_buff_len), t))
          × (client_recv e c input l ≡ fault out_of_bounds))

  -- With KCP on, where finitely many datagrams and messages wait and the library keeps to the room it is
  -- given: for a client past its handshake with an empty buffer, every `Recv` returns, keeps the
  -- buffer's size and changes nothing but its contents, unless what was read fills the buffer. The bug:
  -- then it writes past the end.
  pub client_recv-Ends :
      (quiet : Quiet e) (fits : KcpRecvFits e) (c : Client) (input : Option Bytes) (l : Log)
      → e.build.with_kcp ≡ true
      → get_kcp_conv_id e c ≢ 0
      → HasRoom c
      → Ending c input l
  client_recv-Ends quiet fits c input l on past room =
      let (r, got, (size, low, high)) = Returns-ok (Read (length c.buff) 0 max_client_buff_len) _ (
        kcp_recv_with-Returns e quiet fits c.block c.sock input c.buff max_client_buff_len l
          (omega (arith, room.full_size))) in
      let (z, l', s) = client_send-ok c (decimal c.big_id) r.1 in
      finish r.0.0 r.0.1 r.1 l'
        (kcp_recv-with c.block c.sock input c.buff max_client_buff_len l on ∙ got)
        (size ∙ room.full_size) high
        (client_recv-echo e c input r.0.0 r.0.1 z l r.1 l' past room
          (kcp_recv-with c.block c.sock input c.buff max_client_buff_len l on ∙ got)
          (size ∙ room.full_size) s)
    where
      finish :
          (b : Bytes) (n : ℕ) (t t' : Log)
          → kcp_recv e c.block c.sock input c.buff max_client_buff_len l ≡ ok ((b, n), t)
          → length b ≡ max_client_buff_len
          → n ≤ max_client_buff_len
          → client_recv e c input l ≡ (
              if n == 0
              then ok (record c { buff = b }, t)
              else if ltb n max_client_buff_len
              then ok (record c { buff = written b n (0 ∷ []) }, t')
              else fault out_of_bounds)
          → Ending c input l
      finish b n t t' got size high echo = elim (Bool-cases (n == 0)) [
        | inl z ↦ inl (rw echo (simp z (refl, size)))
        | inr f ↦ elim (Bool-cases (ltb n max_client_buff_len)) [
          | inl m ↦ inl (
              rw echo
                (simp (f, m) (refl, length-written b n (0 ∷ []) (ground (arith, size)) ∙ size)))
          | inr m ↦
              let full : n ≡ max_client_buff_len = ground arith in
              inr (b, t, rw full at got, echo ∙ simp (f, m))
        ]
      ]
