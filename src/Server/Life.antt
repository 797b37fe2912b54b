-- ===== src/Server/Life.antt =====
-- The birth and the death of a server: the constructors and destructors of wheel/src/UDPServer.cpp.
use udp_kcp_plugin.Base.{
  ℕ, ◌-◌, false, Option, none, some, List, [], ◌∷◌, ◌++◌, ◌==◌, not, if◌then◌else◌, ◌&&◌, length,
  take, replicate,
}
use udp_kcp_plugin.Base.Outcome.{Prog, pure, abort, ◌>>=◌, ◌>>◌, exits}
use udp_kcp_plugin.System.{Bytes, Handle, Log, Env, wsa_started, wsa_cleaned}
use udp_kcp_plugin.System.Calls.{note}
use udp_kcp_plugin.NetUnit.{fresh_sock, net_unit_destroy}
use udp_kcp_plugin.Dispatch.{max_req_per_time, un_init, init}
use udp_kcp_plugin.Server.{Server, World, lift, get, set_server, delete_client}
use udp_kcp_plugin.Dispatch.Windows.{init_windows, un_init_windows}

-- `strncpy(m_ip, addr, sizeof(m_ip))` of a text of `bs`.
unfoldable copy_ip : Bytes → Bytes
copy_ip bs = take 32 bs ++ replicate (32 - length bs) 0

-- The members that the constructor leaves, with the dispatcher that `Init` made.
unfoldable pub new_members : Bytes → ℕ → Handle → Server
unfolding fresh_sock copy_ip
new_members addr port made = record {
  sock = fresh_sock;
  dispatch = made;
  ip = copy_ip addr;
  port = port;
  running = false;
  events = replicate max_req_per_time (record { evt = 0; info = 0 });
  clients = [];
}

-- `exit(-11)`: a status of Windows is a word of 32 bits.
abbrev windows_exit : ℕ
windows_exit = 4294967285

module _ (e : Env) where
  -- The constructor, from what `m_kDispatch` holds before `Init`; `Init` may fail unseen.
  unfoldable pub new_server : Bytes → ℕ → Handle → Prog Log Server
  unfolding init new_members
  new_server addr port garbage = do (made, _) ← init e garbage; pure (new_members addr port made)

  -- The constructor on Windows, from what `WSAStartup` answers: `none` where it fails, or the version
  -- that it offers, low byte first. Where it fails or does not offer version 2.2, the program ends.
  unfoldable pub new_server_windows : Option (ℕ × ℕ) → Bytes → ℕ → Handle → Prog Log Server
  unfolding init_windows new_members
  new_server_windows none addr port garbage =
      note wsa_started >> (note wsa_cleaned >> abort (exits windows_exit))
  new_server_windows (some (low, high)) addr port garbage =
      note wsa_started
      >> (if not ((low == 2) && (high == 2))
          then note wsa_cleaned >> abort (exits windows_exit)
          else (do (made, _) ← init_windows e garbage; pure (new_members addr port made)))

  unfoldable pub delete_all : List (ℕ × ℕ) → Prog World (Unit {0})
  unfolding delete_client
  delete_all [] = pure tt
  delete_all ((id, p) ∷ rest) = do delete_client e p; delete_all rest

  unfoldable pub free_all_client : Prog World (Unit {0})
  unfolding get set_server delete_all
  free_all_client = do
    w ← get
    delete_all w.server.clients
    w' ← get
    set_server (record (w'.server) { clients = [] })

  -- What the destructor does behind `FreeAllClient`: `UnInit`, `UnInit` again in the dispatcher's own
  -- destructor, and the destructor of the base class.
  unfoldable pub close_all : Prog World (Unit {0})
  unfolding lift get set_server un_init net_unit_destroy
  close_all = do
    w ← get
    d ← lift (un_init w.server.dispatch)
    d' ← lift (un_init d)
    s ← lift (net_unit_destroy w.server.sock)
    set_server (record (w.server) { dispatch = d'; sock = s })

  -- The destructor.
  unfoldable pub server_destroy : Prog World (Unit {0})
  unfolding free_all_client close_all
  server_destroy = free_all_client >> close_all

  -- The same on Windows, where the dispatcher is a completion port.
  unfoldable pub close_all_windows : Prog World (Unit {0})
  unfolding lift get set_server un_init_windows net_unit_destroy
  close_all_windows = do
    w ← get
    d ← lift (un_init_windows w.server.dispatch)
    d' ← lift (un_init_windows d)
    s ← lift (net_unit_destroy w.server.sock)
    set_server (record (w.server) { dispatch = d'; sock = s })

  -- The destructor on Windows gives Winsock up before it closes the sockets.
  unfoldable pub server_destroy_windows : Prog World (Unit {0})
  unfolding lift free_all_client close_all_windows
  server_destroy_windows = lift (note wsa_cleaned) >> (free_all_client >> close_all_windows)
