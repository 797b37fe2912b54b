-- ===== src/Client/Connect.antt =====
-- `TryConnect` of wheel/src/UDPClient.cpp: which sockets it opens, hands out and closes.
use udp_kcp_plugin.Base.{
  ℕ, ◌≡◌, ◌⊎◌, Option, none, some, is_set, true, false, not, ◌∷◌, if◌then◌else◌,
}
use udp_kcp_plugin.Base.Outcome.{Prog, pure, ◌>>=◌, ◌>>◌}
use udp_kcp_plugin.System.{
  asked_name, Handle, Addr, Log, Env, bound, closed, opened, connected, made_reusable,
  made_nonblocking,
}
use udp_kcp_plugin.System.Calls.{close, bind, sock_name, connect}
use udp_kcp_plugin.Address.{make_unique_id, htons}
use udp_kcp_plugin.NetUnit.{set_handle}
use udp_kcp_plugin.Socket.{open_udp, any_addr}
use udp_kcp_plugin.Client.{Client, connecting, fresh_client, set_some_info_by_addr, set_client_type}
use udp_kcp_plugin.Client.Handshake.{IsNew, HasRoom}

-- The object that a connection is handed out as, with the address that the socket has.
unfoldable pub connected_client : Addr → Handle → Client
unfolding set_some_info_by_addr fresh_client set_handle set_client_type
connected_client my_addr fd =
    set_client_type
      (set_some_info_by_addr (record fresh_client { sock = set_handle fresh_client.sock fd })
        my_addr)
      connecting

module _ (e : Env) where
  -- Behind `getsockname`. Where `connect` fails, `delete poUnit` deletes a null pointer.
  unfoldable pub connect_from : Addr → Addr → Handle → Prog Log (Option Client)
  unfolding connected_client
  connect_from my_addr remote fd = do
    there ← connect e fd remote
    (if there then pure (some (connected_client my_addr fd)) else (do close fd; pure none))

  unfoldable pub named_socket : Addr → Handle → Option Addr → Prog Log (Option Client)
  unfolding connect_from
  named_socket remote fd none = do close fd; pure none
  named_socket remote fd (some my_addr) = connect_from my_addr remote fd

  -- From the address that `inet_addr` reads in `ip`, and the port.
  unfoldable pub try_connect : ℕ → ℕ → Prog Log (Option Client)
  unfolding htons open_udp named_socket
  try_connect ip uport = do
    fd ← open_udp e
    ready ← bind e fd (any_addr 0)
    (if not ready
        then pure none
        else (if not (is_set fd) then pure none else (do
          name ← sock_name e fd
          named_socket (record { ip = ip; port = htons uport }) fd name)))

-- A client that was just connected, with a socket of its own.
pub record IsConnected (fd : Handle) (c : Client) : Type 0 where
  pub own_sock : c.sock ≡ fd
  pub own_id : c.big_id ≡ make_unique_id c.addr
  pub no_conversation : IsNew c
  pub empty_buff : HasRoom c
  pub is_connecting : c.kind ≡ some connecting

-- The calls up to `bind`, newest first.
abbrev pub prepared : Handle → Log → Log
prepared fd l = made_nonblocking fd ∷ made_reusable fd ∷ opened fd ∷ l

-- The calls up to `getsockname`.
abbrev pub named : Handle → Log → Log
named fd l = asked_name fd ∷ bound fd (any_addr 0) true ∷ prepared fd l

-- What becomes of the socket: a client with the address that `getsockname` told holds it, and it was
-- connected last; or it was closed last, as it got no name or could not be connected; or `bind` failed
-- last.
abbrev pub Settled : Env → Handle → Addr → Log → Option Client × Log → Type 0
Settled e fd remote l (some c, l') =
    IsConnected fd c
    × (e.os.sock_name (bound fd (any_addr 0) true ∷ prepared fd l) fd ≡ some c.addr)
    × (l' ≡ connected fd remote true ∷ named fd l)
Settled e fd remote l (none, l') =
    (l' ≡ closed fd ∷ named fd l)
    ⊎ (l' ≡ closed fd ∷ connected fd remote false ∷ named fd l)
    ⊎ (l' ≡ bound fd (any_addr 0) false ∷ prepared fd l)
