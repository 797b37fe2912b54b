-- ===== src/Plug/Tame.antt =====
-- Nothing in the plug uses an object that is not allocated.
use udp_kcp_plugin.Base.{
  ℕ, zero, suc, ◌+◌, ◌-◌, Option-cases, Option, none, some, List, [], ◌∷◌, inl, inr, arith, ℤ,
  length,
}
use udp_kcp_plugin.Base.Outcome.{Prog}
use udp_kcp_plugin.Base.Tame.{Safe-chain, Tame, Tame->>=, Tame-if}
use udp_kcp_plugin.System.{Bytes, Handle, Log, Env}
use udp_kcp_plugin.Buffer.{write_bytes}
use udp_kcp_plugin.Plug.Socket.{Bytes-cases, drain_socket-full, drain_socket-end, drain_socket-step}
use udp_kcp_plugin.Plug.Messages.{
  feed_socket-end, feed_socket-more, drain_block-full, drain_block-end, drain_block-step,
}
use udp_kcp_plugin.Plug.{
  Block, copy_id, use_kcp_plug, get_kcp_conv_id, kcp_release, configure_block,
  new_kcp_plug_control_block, output_all, kcp_update, kcp_send, feed_socket, drain_block,
  drain_socket, input_first, copy_first, kcp_recv_with, kcp_recv_without, kcp_recv, max_udp_mtu,
}

pub write_bytes-Tame : (buf : Bytes) (off : ℕ) (bs : Bytes) → Tame (write_bytes buf off bs)
unfolding write_bytes
write_bytes-Tame buf off bs l = ground arith

copy_id-Tame : (bs : Option Bytes) → Tame (copy_id bs)
unfolding copy_id
copy_id-Tame none l = ground arith
copy_id-Tame (some bs) l = ground arith

configure_block-Tame : (b : Block) → Tame (configure_block b)
unfolding configure_block
configure_block-Tame none l = ground arith
configure_block-Tame (some b) l = tt

module _ (e : Env) where
  pub get_kcp_conv_id-Tame : (bs : Option Bytes) → Tame (get_kcp_conv_id e bs)
  unfolding get_kcp_conv_id
  get_kcp_conv_id-Tame bs = Tame-if (use_kcp_plug e) _ _ (copy_id-Tame bs) (λ l. tt)

  pub kcp_release-Tame : (b : Block) → Tame (kcp_release e b)
  unfolding kcp_release
  kcp_release-Tame none l = tt
  kcp_release-Tame (some b) l = ground arith

  pub new_block-Tame : (conv : ℕ) → Tame (new_kcp_plug_control_block e conv)
  unfolding new_kcp_plug_control_block
  new_block-Tame conv =
      Tame-if (use_kcp_plug e) _ _ (λ l. configure_block-Tame (e.kcp.create l conv) _) (λ l. tt)

  output_all-Tame :
      (output : Bytes → Prog Log ℤ) (ps : List Bytes)
      → ((p : Bytes) → Tame (output p))
      → Tame (output_all output ps)
  unfolding output_all
  output_all-Tame output [] h = λ l. tt
  output_all-Tame output (p ∷ ps) h = Tame->>= (output p) _ (h p) (λ _. output_all-Tame output ps h)

  pub kcp_update-Tame :
      (b : Block) (output : Bytes → Prog Log ℤ) (now : ℕ)
      → ((p : Bytes) → Tame (output p))
      → Tame (kcp_update e b output now)
  unfolding kcp_update
  kcp_update-Tame none output now h = λ l. tt
  kcp_update-Tame (some b) output now h =
      Tame-if (use_kcp_plug e) _ _ (λ l. output_all-Tame output (e.kcp.update l b now) h _)
        (λ l. tt)

  pub kcp_send-Tame : (b : Block) (soc : Handle) (bs : Bytes) → Tame (kcp_send e b soc bs)
  unfolding kcp_send
  kcp_send-Tame none soc bs l = ground arith
  kcp_send-Tame (some b) soc bs l = ground arith

  feed_socket-Tame : (fuel b : ℕ) (soc : Handle) → Tame (feed_socket e fuel b soc)
  unfolding feed_socket
  feed_socket-Tame zero b soc l = ground arith
  feed_socket-Tame (suc fuel) b soc l = elim (Bytes-cases (e.os.recv l soc max_udp_mtu)) [
    | inl r ↦ rw ((feed_socket-end e fuel b soc l r).1) tt
    | inr (x, xs, r) ↦ rw (feed_socket-more e fuel b soc l x xs r) (feed_socket-Tame fuel b soc _)
  ]

  drain_block-Tame :
      (fuel b : ℕ) (buf : Bytes) (curr_len maxlen : ℕ)
      → Tame (drain_block e fuel b buf curr_len maxlen)
  drain_block-Tame fuel b buf curr_len zero l = rw (drain_block-full e fuel b buf curr_len l) tt
  drain_block-Tame zero b buf curr_len (suc m) l = unfold drain_block in ground arith
  drain_block-Tame (suc fuel) b buf curr_len (suc m) l =
      elim (Option-cases (e.kcp.recv l b (suc m))) [
        | inl r ↦ rw (drain_block-end e fuel b buf curr_len (suc m) l (omega arith) r) tt
        | inr (bs, r) ↦ rw (drain_block-step e fuel b buf curr_len (suc m) l bs (omega arith) r) (
            Safe-chain (λ _. Unit {0}) (λ _. Unit {0}) (write_bytes buf curr_len bs _) _
              (write_bytes-Tame buf curr_len bs _)
              λ buf' l' _.
                drain_block-Tame fuel b buf' (curr_len + length bs) (suc m - length bs) l')
      ]

  drain_socket-Tame :
      (fuel : ℕ) (soc : Handle) (buf : Bytes) (curr_len maxlen : ℕ)
      → Tame (drain_socket e fuel soc buf curr_len maxlen)
  drain_socket-Tame fuel soc buf curr_len zero l =
      rw (drain_socket-full e fuel soc buf curr_len l) tt
  drain_socket-Tame zero soc buf curr_len (suc m) l = unfold drain_socket in ground arith
  drain_socket-Tame (suc fuel) soc buf curr_len (suc m) l =
      elim (Bytes-cases (e.os.recv l soc (suc m))) [
        | inl r ↦ rw ((drain_socket-end e fuel soc buf curr_len (suc m) l (omega arith) r).1) tt
        | inr (x, xs, r) ↦
            rw (drain_socket-step e fuel soc buf curr_len (suc m) l x xs (omega arith) r) (
              Safe-chain (λ _. Unit {0}) (λ _. Unit {0}) (write_bytes buf curr_len (x ∷ xs) _) _
                (write_bytes-Tame buf curr_len (x ∷ xs) _)
                λ buf' l' _.
                  drain_socket-Tame fuel soc buf' (curr_len + suc (length xs))
                    (suc m - suc (length xs)) l')
      ]

  input_first-Tame : (b : ℕ) (input : Option Bytes) → Tame (input_first b input)
  unfolding input_first
  input_first-Tame b none l = tt
  input_first-Tame b (some []) l = tt
  input_first-Tame b (some (x ∷ xs)) l = tt

  copy_first-Tame : (buf : Bytes) (input : Option Bytes) → Tame (copy_first buf input)
  unfolding copy_first
  copy_first-Tame buf none = λ l. tt
  copy_first-Tame buf (some []) = λ l. tt
  copy_first-Tame buf (some (x ∷ xs)) =
      Tame->>= (write_bytes buf 0 (x ∷ xs)) _ (write_bytes-Tame buf 0 (x ∷ xs)) (λ b l. tt)

  kcp_recv_with-Tame :
      (block : Block) (soc : Handle) (input : Option Bytes) (buf : Bytes) (maxlen : ℕ)
      → Tame (kcp_recv_with e block soc input buf maxlen)
  unfolding kcp_recv_with
  kcp_recv_with-Tame none soc input buf maxlen = λ l. tt
  kcp_recv_with-Tame (some b) soc input buf maxlen =
      Tame->>= (input_first b input) _ (input_first-Tame b input) λ _.
        Tame->>= (feed_socket e e.build.fuel b soc) _ (feed_socket-Tame e.build.fuel b soc)
          λ _. drain_block-Tame e.build.fuel b buf 0 maxlen

  -- No reading does.
  pub kcp_recv-Tame :
      (block : Block) (soc : Handle) (input : Option Bytes) (buf : Bytes) (maxlen : ℕ)
      → Tame (kcp_recv e block soc input buf maxlen)
  unfolding kcp_recv kcp_recv_without
  kcp_recv-Tame block soc input buf maxlen =
      Tame-if (use_kcp_plug e) _ _ (kcp_recv_with-Tame block soc input buf maxlen) (
        Tame->>= (copy_first buf input) _ (copy_first-Tame buf input)
          λ r. drain_socket-Tame maxlen soc r.0 r.1 maxlen)
