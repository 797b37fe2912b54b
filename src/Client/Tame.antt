-- ===== src/Client/Tame.antt =====
-- Nothing that a client does uses an object that is not allocated.
use udp_kcp_plugin.Base.{
  ℕ, Option, none, some, Option-cases, inl, inr, [], ◌∷◌, arith, ltb, is_set, ◌==◌, ◌&&◌,
}
use udp_kcp_plugin.Base.Tame.{Safe, Safe-chain, Safe-IfReturns, Tame, Tame->>=, Tame-if}
use udp_kcp_plugin.System.{Bytes, Log, Env}
use udp_kcp_plugin.NetUnit.{net_unit_destroy}
use udp_kcp_plugin.Buffer.{write_bytes, u32_bytes}
use udp_kcp_plugin.Plug.{
  get_kcp_conv_id as conv_id_of, new_kcp_plug_control_block, use_kcp_plug, kcp_release, kcp_recv,
}
use udp_kcp_plugin.Plug.Tame.{
  write_bytes-Tame, get_kcp_conv_id-Tame, kcp_release-Tame, new_block-Tame, kcp_update-Tame,
  kcp_send-Tame, kcp_recv-Tame,
}
use udp_kcp_plugin.Client.Decimal.{decimal}
use udp_kcp_plugin.Client.{
  Client, ClientType, accepted, connecting, destroy, output_callback, update, get_kcp_conv_id,
  ensure_block, set_kcp_conv_id, real_recv, get_buff_left_len, client_send, offer_conv, take_conv,
  start_conv, check_kcp_plug, on_recv_data, recv_data, client_recv,
}
use udp_kcp_plugin.Client.Members.{SameUnit, client_recv-SameUnit}

module _ (e : Env) where
  pub destroy-Tame : (c : Client) → Tame (destroy e c)
  unfolding destroy net_unit_destroy
  destroy-Tame c =
      Tame->>= (kcp_release e c.block) _ (kcp_release-Tame e c.block) λ _ l. ground arith

  pub update-Tame : (c : Client) (now : ℕ) → Tame (update e c now)
  unfolding update
  update-Tame c now = kcp_update-Tame e c.block (output_callback e (some c)) now λ p l. tt

  ensure_block-Tame : (c : Client) → Tame (ensure_block e c)
  unfolding ensure_block
  ensure_block-Tame c =
      Tame-if (is_set c.block) _ _ (λ l. tt)
        (Tame->>= (new_kcp_plug_control_block e c.conv_id) _ (new_block-Tame e c.conv_id) λ b l. tt)

  set_kcp_conv_id-Tame : (c : Client) (id : ℕ) → Tame (set_kcp_conv_id e c id)
  unfolding set_kcp_conv_id
  set_kcp_conv_id-Tame c id =
      Tame-if (c.conv_id == 0) _ _ (ensure_block-Tame (record c { conv_id = id })) (λ l. tt)

  real_recv-Tame : (c : Client) → Tame (real_recv e c)
  unfolding real_recv
  real_recv-Tame c =
      Tame-if (ltb 512 c.buff_offset) _ _ (λ l. ground arith)
        λ l. elim (Option-cases (e.os.recv l c.sock (get_buff_left_len c))) [
          | inl r ↦ rw r tt
          | inr (bs, r) ↦ rw r (
              Safe-chain (λ _. Unit {0}) (λ _. Unit {0}) (write_bytes c.buff 0 bs _) _
                (write_bytes-Tame c.buff 0 bs _) λ b l' _. tt)
        ]

  offer_conv-Tame : (c : Client) → Tame (offer_conv e c)
  unfolding offer_conv
  offer_conv-Tame c =
      Tame->>= (conv_id_of e (some (u32_bytes c.big_id))) _ (get_kcp_conv_id-Tame e _)
        λ conv. Tame->>= (set_kcp_conv_id e c conv) _ (set_kcp_conv_id-Tame c conv) λ c' l. tt

  take_conv-Tame : (c : Client) (input : Option Bytes) → Tame (take_conv e c input)
  unfolding take_conv
  take_conv-Tame c input =
      Tame-if e.build.is_linux _ _
        (Tame->>= (real_recv e c) _ (real_recv-Tame c) λ r.
          Tame->>= (conv_id_of e r.1) _ (get_kcp_conv_id-Tame e r.1)
            λ conv. set_kcp_conv_id-Tame r.0 conv)
        (Tame->>= (conv_id_of e input) _ (get_kcp_conv_id-Tame e input)
          λ conv. set_kcp_conv_id-Tame c conv)

  start_conv-Tame :
      (k : Option ClientType) (c : Client) (input : Option Bytes) → Tame (start_conv e k c input)
  unfolding start_conv
  start_conv-Tame none c input = λ l. tt
  start_conv-Tame (some accepted) c input =
      Tame->>= (offer_conv e c) _ (offer_conv-Tame c) λ c' l. tt
  start_conv-Tame (some connecting) c input =
      Tame->>= (take_conv e c input) _ (take_conv-Tame c input) λ c' l. tt

  client_send-Tame : (c : Client) (bs : Bytes) → Tame (client_send e c bs)
  unfolding client_send
  client_send-Tame c bs =
      Tame-if (get_kcp_conv_id e c == 0) _ _ (λ l. tt) (kcp_send-Tame e c.block c.sock bs)

  on_recv_data-Tame : (c : Client) (n : ℕ) → Tame (on_recv_data e c n)
  unfolding on_recv_data
  on_recv_data-Tame c n =
      Tame->>= (write_bytes c.buff n (0 ∷ [])) _ (write_bytes-Tame c.buff n (0 ∷ [])) λ b.
        Tame->>= (client_send e (record c { buff = b }) (decimal c.big_id)) _
          (client_send-Tame (record c { buff = b }) (decimal c.big_id)) λ z l. tt

  recv_data-Tame : (c : Client) (input : Option Bytes) → Tame (recv_data e c input)
  unfolding recv_data
  recv_data-Tame c input =
      Tame->>= (kcp_recv e c.block c.sock input c.buff (get_buff_left_len c)) _
        (kcp_recv-Tame e c.block c.sock input c.buff (get_buff_left_len c))
        λ r. Tame-if (ltb 0 r.1) _ _ (on_recv_data-Tame (record c { buff = r.0 }) r.1) (λ l. tt)

  client_recv-Tame : (c : Client) (input : Option Bytes) → Tame (client_recv e c input)
  unfolding client_recv check_kcp_plug
  client_recv-Tame c input =
      Tame->>= (check_kcp_plug e c input) _
        (Tame-if (use_kcp_plug e && get_kcp_conv_id e c == 0) _ _ (start_conv-Tame c.kind c input)
          (λ l. tt))
        λ r. Tame-if r.1 _ _ (λ l. tt) (recv_data-Tame r.0 input)

  -- Both at once: what `Recv` keeps, and that it uses no dead object.
  pub client_recv-Safe :
      (c : Client) (input : Option Bytes) (l : Log)
      → Safe (λ (r : Client × Log). SameUnit c r.0) (client_recv e c input l)
  client_recv-Safe c input l =
      Safe-IfReturns (λ (r : Client × Log). SameUnit c r.0) (client_recv e c input l)
        (client_recv-Tame c input l) (client_recv-SameUnit e c input l)
