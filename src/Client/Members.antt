-- ===== src/Client/Members.antt =====
-- Which members `Recv` may change.
use udp_kcp_plugin.Base.{
  ℕ, ◌≡◌, ◌≢◌, refl, Bool, Bool-cases, Option, Option-cases, none, some, inl, inr, [], ◌∷◌, arith,
  ltb, is_set, ◌==◌, ◌&&◌,
}
use udp_kcp_plugin.Base.Hoare.{
  IfReturns, IfReturns-chain, IfReturns-after, IfReturns-mono, IfReturns-if,
}
use udp_kcp_plugin.System.{Bytes, Log, Env, received}
use udp_kcp_plugin.Buffer.{write_bytes, u32_bytes}
use udp_kcp_plugin.Plug.{
  get_kcp_conv_id as conv_id_of, new_kcp_plug_control_block, use_kcp_plug, kcp_recv,
}
use udp_kcp_plugin.Client.Decimal.{decimal}
use udp_kcp_plugin.Client.{
  Client, ClientType, accepted, connecting, get_kcp_conv_id, ensure_block, set_kcp_conv_id,
  real_recv, offer_conv, take_conv, start_conv, check_kcp_plug, get_buff_left_len, client_send,
  on_recv_data, recv_data, client_recv,
}
use udp_kcp_plugin.Client.Echo.{check_kcp_plug-done}

-- The same object but for the contents of its buffer.
abbrev pub SameButBuff : Client → Client × Log → Type 0
SameButBuff c r = r.0 ≡ record c { buff = r.0.buff }

-- Who the unit is, and which socket it has.
pub record SameUnit (c c' : Client) : Type 0 where
  pub same_sock : c'.sock ≡ c.sock
  pub same_addr : c'.addr ≡ c.addr
  pub same_id : c'.big_id ≡ c.big_id
  pub same_kind : c'.kind ≡ c.kind

abbrev Still : Client → Client × Log → Type 0
Still o r = SameUnit o r.0

module _ (e : Env) where
  on_recv_data-SameButBuff :
      (c : Client) (n : ℕ) (l : Log) → IfReturns (SameButBuff c) (on_recv_data e c n l)
  unfolding on_recv_data
  on_recv_data-SameButBuff c n l =
      IfReturns-after (SameButBuff c) (write_bytes c.buff n (0 ∷ []) l) _ λ buff' l' _.
        IfReturns-after (SameButBuff c)
          (client_send e (record c { buff = buff' }) (decimal c.big_id) l') _ λ z l'' _. refl

  pub recv_data-SameButBuff :
      (c : Client) (input : Option Bytes) (l : Log)
      → IfReturns (SameButBuff c) (recv_data e c input l)
  unfolding recv_data
  recv_data-SameButBuff c input l =
      IfReturns-after (SameButBuff c)
        (kcp_recv e c.block c.sock input c.buff (get_buff_left_len c) l) _
        λ r l' _. elim (Bool-cases (ltb 0 r.1)) [
          | inl t ↦ rw t (
              IfReturns-mono (SameButBuff (record c { buff = r.0 })) (SameButBuff c) _
                (on_recv_data-SameButBuff (record c { buff = r.0 }) r.1 l') (λ z h. h))
          | inr t ↦ rw t refl
        ]

  -- Through any `Recv` that returns, a client past its handshake keeps its conversation, its block and
  -- every other member, whatever arrives: only the contents of the buffer change.
  pub client_recv-SameButBuff :
      (c : Client) (input : Option Bytes) (l : Log)
      → get_kcp_conv_id e c ≢ 0
      → IfReturns (SameButBuff c) (client_recv e c input l)
  client_recv-SameButBuff c input l h =
      rw (check_kcp_plug-done e c input l h) (recv_data-SameButBuff c input l)

  -- In each of these `o` is the object as it was when `Recv` was called.
  ensure_block-Still :
      (o c : Client) (l : Log) → SameUnit o c → IfReturns (Still o) (ensure_block e c l)
  unfolding ensure_block
  ensure_block-Still o c l h = elim (Bool-cases (is_set c.block)) [
    | inl t ↦ rw t h
    | inr t ↦ rw t (
        IfReturns-after (Still o) (new_kcp_plug_control_block e c.conv_id l) _
          λ b l' _. ground arith)
  ]

  set_kcp_conv_id-Still :
      (o c : Client) (id : ℕ) (l : Log)
      → SameUnit o c
      → IfReturns (Still o) (set_kcp_conv_id e c id l)
  unfolding set_kcp_conv_id
  set_kcp_conv_id-Still o c id l h = elim (Bool-cases (c.conv_id == 0)) [
    | inl t ↦ rw t (ensure_block-Still o (record c { conv_id = id }) l (ground arith))
    | inr t ↦ rw t h
  ]

  -- With a datagram or a failure, the bytes that were read aside.
  real_recv-Still :
      (o c : Client) (l : Log)
      → SameUnit o c
      → IfReturns (λ (r : (Client × Option Bytes) × Log). SameUnit o r.0.0) (real_recv e c l)
  unfolding real_recv
  real_recv-Still o c l h = elim (Bool-cases (ltb 512 c.buff_offset)) [
    | inl t ↦ rw t tt
    | inr t ↦ rw t (elim (Option-cases (e.os.recv l c.sock (get_buff_left_len c))) [
      | inl r ↦ rw r h
      | inr (bs, r) ↦ rw r (
          IfReturns-after (λ (r : (Client × Option Bytes) × Log). SameUnit o r.0.0)
            (write_bytes c.buff 0 bs (received c.sock (some bs) ∷ l)) _ λ b l' _. ground arith)
    ])
  ]

  offer_conv-Still :
      (o c : Client) (l : Log) → SameUnit o c → IfReturns (Still o) (offer_conv e c l)
  unfolding offer_conv
  offer_conv-Still o c l h =
      IfReturns-after (Still o) (conv_id_of e (some (u32_bytes c.big_id)) l) _ λ conv l' _.
        IfReturns-chain (Still o) (Still o) (set_kcp_conv_id e c conv l') _
          (set_kcp_conv_id-Still o c conv l' h) λ c' l'' k. k

  take_conv-Still :
      (o c : Client) (input : Option Bytes) (l : Log)
      → SameUnit o c
      → IfReturns (Still o) (take_conv e c input l)
  unfolding take_conv
  take_conv-Still o c input l h =
      IfReturns-if (Still o) e.build.is_linux _ _ l
        (IfReturns-chain (λ (r : (Client × Option Bytes) × Log). SameUnit o r.0.0) (Still o)
          (real_recv e c l) _ (real_recv-Still o c l h)
          λ r l' k.
            IfReturns-after (Still o) (conv_id_of e r.1 l') _
              λ conv l'' _. set_kcp_conv_id-Still o r.0 conv l'' k)
        (IfReturns-after (Still o) (conv_id_of e input l) _
          λ conv l' _. set_kcp_conv_id-Still o c conv l' h)

  start_conv-Still :
      (k : Option ClientType) (o c : Client) (input : Option Bytes) (l : Log)
      → SameUnit o c
      → IfReturns (λ (r : (Client × Bool) × Log). SameUnit o r.0.0) (start_conv e k c input l)
  unfolding start_conv
  start_conv-Still none o c input l h = h
  start_conv-Still (some accepted) o c input l h =
      IfReturns-chain (Still o) (λ (r : (Client × Bool) × Log). SameUnit o r.0.0) (offer_conv e c l)
        _ (offer_conv-Still o c l h) λ c' l' k. k
  start_conv-Still (some connecting) o c input l h =
      IfReturns-chain (Still o) (λ (r : (Client × Bool) × Log). SameUnit o r.0.0)
        (take_conv e c input l) _ (take_conv-Still o c input l h) λ c' l' k. k

  check_kcp_plug-Still :
      (c : Client) (input : Option Bytes) (l : Log)
      → IfReturns (λ (r : (Client × Bool) × Log). SameUnit c r.0.0) (check_kcp_plug e c input l)
  unfolding check_kcp_plug
  check_kcp_plug-Still c input l = elim (Bool-cases (use_kcp_plug e && get_kcp_conv_id e c == 0)) [
    | inl t ↦ rw t (start_conv-Still c.kind c c input l (ground arith))
    | inr t ↦ rw t (ground arith)
  ]

  -- Through any `Recv` that returns a client keeps its socket, its address, its identity and its kind.
  pub client_recv-SameUnit :
      (c : Client) (input : Option Bytes) (l : Log) → IfReturns (Still c) (client_recv e c input l)
  unfolding client_recv
  client_recv-SameUnit c input l =
      IfReturns-chain (λ (r : (Client × Bool) × Log). SameUnit c r.0.0) (Still c)
        (check_kcp_plug e c input l) _ (check_kcp_plug-Still c input l)
        λ r l' k. elim (Bool-cases r.1) [
          | inl t ↦ rw t k
          | inr t ↦ rw t (
              IfReturns-mono (SameButBuff r.0) (Still c) _ (recv_data-SameButBuff r.0 input l')
                λ z h. ground arith)
        ]
