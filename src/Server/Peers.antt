-- ===== src/Server/Peers.antt =====
-- A datagram at the server's own socket: `NewNetClient`, `OnRecvByAddr` and `Recv` of
-- wheel/src/UDPServer.cpp.
use udp_kcp_plugin.Base.{ℕ, Option, none, some, is_set, not, if◌then◌else◌}
use udp_kcp_plugin.Base.Assoc.{lookup}
use udp_kcp_plugin.Base.Outcome.{Prog, pure, ◌>>=◌, ◌>>◌}
use udp_kcp_plugin.System.{Bytes, Handle, Addr, client, Env}
use udp_kcp_plugin.System.Calls.{close, bind, connect, recv_from}
use udp_kcp_plugin.Address.{make_unique_id}
use udp_kcp_plugin.Socket.{open_udp, any_addr}
use udp_kcp_plugin.Client.{accepted, max_client_buff_len, new_client, set_client_type, client_recv}
use udp_kcp_plugin.Dispatch.{mod_, ene_read}
use udp_kcp_plugin.Server.{
  World, get_port, lift, alloc, get, at_client, delete_client, ctl_udp_event, attach_net_client,
}

module _ (e : Env) where
  open e use {build}

  -- The end of every failure behind `connect`; `delete NULL` does nothing.
  unfoldable pub give_up : Handle → Option ℕ → Prog World (Option ℕ)
  unfolding lift delete_client
  give_up fd none = do lift (close fd); pure none
  give_up fd (some p) = do lift (close fd); delete_client e p; pure none

  -- Behind a successful `connect`.
  unfoldable pub adopt : Addr → Handle → Prog World (Option ℕ)
  unfolding alloc attach_net_client at_client give_up
  adopt raddr fd = do
    p ← alloc (new_client raddr fd)
    attached ← attach_net_client e p
    (if attached
        then (do at_client p (λ c. pure (set_client_type c accepted)); pure (some p))
        else give_up fd (some p))

  unfoldable pub connect_new_client : Addr → Handle → Prog World (Option ℕ)
  unfolding lift adopt give_up
  connect_new_client raddr fd = do
    connected ← lift (connect e fd raddr)
    (if connected then adopt raddr fd else give_up fd none)

  -- The socket is not closed where `bind` fails.
  unfoldable pub new_net_client : Addr → Prog World (Option ℕ)
  unfolding lift open_udp get connect_new_client
  new_net_client raddr = do
    fd ← lift (open_udp e)
    w ← get
    bound ← lift (bind e fd (any_addr (get_port w.server)))
    (if not bound
        then pure none
        else (if not (is_set fd) then pure none else connect_new_client raddr fd))

  unfoldable pub recv_at : Bytes → ℕ → Prog World (Option ℕ)
  unfolding at_client
  recv_at bs p = do at_client p (λ c. client_recv e c (some bs)); pure (some p)

  -- A peer that is new gets a client, and the client gets the datagram.
  unfoldable pub recv_at_new : Bytes → Option ℕ → Prog World (Option ℕ)
  unfolding recv_at
  recv_at_new bs none = pure none
  recv_at_new bs (some p) = recv_at bs p

  unfoldable pub on_recv_by_addr : Bytes → Addr → Prog World (Option ℕ)
  unfolding get new_net_client recv_at recv_at_new
  on_recv_by_addr bs addr = do
    w ← get
    elim (lookup (make_unique_id addr) w.server.clients) [
      | some p ↦ recv_at bs p
      | none ↦ new_net_client addr >>= recv_at_new bs
    ]

  -- `Recv` on Linux reads the datagram itself.
  unfoldable pub server_recv_linux : Prog World (Unit {0})
  unfolding lift get on_recv_by_addr
  server_recv_linux = do
    w ← get
    got ← lift (recv_from e w.server.sock max_client_buff_len)
    elim got [ none ↦ pure tt | some (bs, addr) ↦ (do _ ← on_recv_by_addr bs addr; pure tt) ]

  -- The client is armed again.
  unfoldable pub rearm : Option ℕ → Prog World (Unit {0})
  unfolding ctl_udp_event
  rearm none = pure tt
  rearm (some p) = do _ ← ctl_udp_event e mod_ ene_read (client p); pure tt

  -- `Recv` on Windows is handed the datagram.
  unfoldable pub server_recv_windows : Bytes → Addr → Prog World (Unit {0})
  unfolding on_recv_by_addr rearm
  server_recv_windows bs addr = on_recv_by_addr bs addr >>= rearm
