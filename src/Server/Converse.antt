-- ===== src/Server/Converse.antt =====
-- A new peer, from its first datagram on: the composition of its welcome and of its session.
use udp_kcp_plugin.Base.{
  sym, ap, ◌∙◌, Option, ℕ, ◌≡◌, ◌≢◌, ◌⊎◌, refl, inl, inr, true, none, some, List, ◌∷◌, length,
}
use udp_kcp_plugin.Base.Assoc.{lookup}
use udp_kcp_plugin.Base.Outcome.{ok, Outcome, fault, out_of_bounds}
use udp_kcp_plugin.Base.Hoare.{Returns, Returns-ok, Returns-map}
use udp_kcp_plugin.System.{sent, received, Log, Bytes, Addr, Env, KcpRecvFits}
use udp_kcp_plugin.Address.{make_unique_id}
use udp_kcp_plugin.Plug.{use_kcp_plug}
use udp_kcp_plugin.Plug.Messages.{Quiet}
use udp_kcp_plugin.Client.{
  connecting, client_recv, Client, max_client_buff_len, get_kcp_conv_id, new_client, fresh_client,
  set_some_info_by_addr, set_client_type,
}
use udp_kcp_plugin.Server.{World}
use udp_kcp_plugin.Server.Peers.{on_recv_by_addr}
use udp_kcp_plugin.Address.Laws.{make_unique_id-lt}
use udp_kcp_plugin.Buffer.{u32_bytes}
use udp_kcp_plugin.Client.Handshake.{IsNew, HasRoom}
use udp_kcp_plugin.Client.Agreement.{client_recv-takes}
use udp_kcp_plugin.Server.Welcome.{Works, talking, Welcomed, on_recv_by_addr-welcomes}
use udp_kcp_plugin.Server.Session.{deliver_all, Talks, Fills, deliver_all-Delivered}

module _ (e : Env) where
  talking-Talks :
      (v : World) (fd b : ℕ) (peer : Addr) (p : ℕ)
      → e.build.with_kcp ≡ true
      → lookup (make_unique_id peer) v.server.clients ≡ some p
      → lookup p v.heap ≡ some (talking e fd b peer)
      → make_unique_id peer ≢ 0
      → Talks e v peer p (talking e fd b peer)
  unfolding get_kcp_conv_id use_kcp_plug new_client fresh_client set_some_info_by_addr
      set_client_type
  talking-Talks v fd b peer p on entry object z = record {
    entry = entry;
    object = object;
    past = rw on z;
    room = record { full_size = refl; at_start = refl };
  }

  -- The peer's new client is in conversation; or a reading for it filled its buffer.
  abbrev pub Conversing : ℕ → ℕ → Addr → World → Outcome (Unit {0} × World) → Type 0
  Conversing fd b peer w r =
      Returns
        (λ (r' : Unit {0} × World).
          (lookup (make_unique_id peer) r'.1.server.clients ≡ some w.next)
          × ((buff : Bytes) × (length buff ≡ max_client_buff_len)
              × (lookup w.next r'.1.heap ≡ some (record (talking e fd b peer) { buff = buff }))))
        r
      ⊎ ((r ≡ fault out_of_bounds) × Fills e (talking e fd b peer))

  -- On Linux with KCP on, for a peer whose identity is not 0 and has no client, where no call of the
  -- system fails, the library has a block and keeps to the room it is given, and finitely many datagrams
  -- and messages wait: one or more datagrams of the peer are all handled without a fault, and then
  -- the entry of the peer's identity is the client that the first one made, which has the new socket,
  -- the identity for its conversation, the block and a buffer of the full size; unless some
  -- reading for that client fills its buffer. The bug: then it writes past the end.
  pub deliver_all-converses :
      (quiet : Quiet e) (fits : KcpRecvFits e) (fd b : ℕ) (peer : Addr) (w : World) (bs : Bytes)
      (bss : List Bytes)
      → Works e fd b peer w.server.port
      → e.os.open_socket w.log ≡ some fd
      → lookup (make_unique_id peer) w.server.clients ≡ none
      → make_unique_id peer ≢ 0
      → Returns
          (λ (r : Unit {0} × World).
            (lookup (make_unique_id peer) r.1.server.clients ≡ some w.next)
            × ((buff : Bytes) × (length buff ≡ max_client_buff_len)
                × (lookup w.next r.1.heap ≡ some (record (talking e fd b peer) { buff = buff }))))
          (deliver_all e peer (bs ∷ bss) w)
        ⊎ ((deliver_all e peer (bs ∷ bss) w ≡ fault out_of_bounds) × Fills e (talking e fd b peer))
  unfolding deliver_all
  deliver_all-converses quiet fits fd b peer w bs bss k o n z =
      let (r, got, (who, entry, object, _)) =
        Returns-ok (Welcomed e fd b peer w) (on_recv_by_addr e bs peer w)
          (on_recv_by_addr-welcomes e fd b peer w bs k o n) in
      rw got
        (elim (deliver_all-Delivered e quiet fits r.1 peer w.next (talking e fd b peer) bss k.kcp_on
          (talking-Talks r.1 fd b peer w.next k.kcp_on entry object z)) [
            | inl x ↦ inl (
                Returns-map _ _ (deliver_all e peer bss r.1) x
                  (λ r' h. (rw h.server_kept entry, (h.buff, h.full_size, h.object_kept))))
            | inr x ↦ inr x
          ])

-- Two machines: the server's, and that of a peer on Linux with KCP on, whose client connected and has
-- neither a conversation nor a block, and an empty buffer. Where the server takes the peer on as a new
-- one, no call of its system fails and both libraries have a block: once the peer's client reads the
-- datagram that the server sent last, it has the same conversation as its client at the server, the
-- identity of the peer's address, and its block.
pub on_recv_by_addr-agree :
    (e e' : Env) (fd b b' : ℕ) (peer : Addr) (w v : World) (o : Option ℕ) (bs bs' : Bytes)
    (l lc : Log) (c : Client) (input : Option Bytes)
    → Works e fd b peer w.server.port
    → e.os.open_socket w.log ≡ some fd
    → lookup (make_unique_id peer) w.server.clients ≡ none
    → on_recv_by_addr e bs peer w ≡ ok (o, v)
    → v.log ≡ sent (some fd) bs' ∷ l
    → e'.build.with_kcp ≡ true
    → e'.build.is_linux ≡ true
    → IsNew c
    → HasRoom c
    → c.kind ≡ some connecting
    → e'.os.recv lc c.sock max_client_buff_len ≡ some bs'
    → e'.kcp.create (received c.sock (some bs') ∷ lc) (make_unique_id peer) ≡ some b'
    → (a : Client) × (p : ℕ) × (lookup (make_unique_id peer) v.server.clients ≡ some p)
      × (lookup p v.heap ≡ some a)
      × (a.conv_id ≡ make_unique_id peer)
      × Returns (λ r. (r.0.conv_id ≡ a.conv_id) × (r.0.block ≡ some b')) (client_recv e' c input lc)
on_recv_by_addr-agree e e' fd b b' peer w v o bs bs' l lc c input k op n run log on x vc f kc got
      m =
    let (r, same, (who, entry, object, calls)) =
      Returns-ok (Welcomed e fd b peer w) (on_recv_by_addr e bs peer w)
        (on_recv_by_addr-welcomes e fd b peer w bs k op n) in
    let here : r.1 ≡ v = cc (same, run) in
    let word : bs' ≡ u32_bytes (make_unique_id peer) = cc (here, calls, log) in
    (
      talking e fd b peer,
      w.next,
      ap (λ (z : World). lookup (make_unique_id peer) z.server.clients) (sym here) ∙ entry,
      ap (λ (z : World). lookup w.next z.heap) (sym here) ∙ object,
      refl,
      client_recv-takes e' on c input (make_unique_id peer) b' lc x (make_unique_id-lt peer) vc f kc
          (rw word at got) (rw word at m),
    )
