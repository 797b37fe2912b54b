-- ===== src/Server/Run.antt =====
-- The life of a server: construction, `TryListen`, `Update`, `Send` and destruction, of
-- wheel/src/UDPServer.cpp.
use udp_kcp_plugin.Base.{
  ℕ, Bool, true, false, Option, none, some, List, [], ◌∷◌, ◌++◌, ◌==◌, is_set, not, if◌then◌else◌,
  length, drop,
}
use udp_kcp_plugin.Base.Assoc.{lookup, erase}
use udp_kcp_plugin.Base.Outcome.{Prog, pure, abort, ◌>>=◌, ◌>>◌, dead_pointer, exits}
use udp_kcp_plugin.System.{Bytes, Handle, Addr, UnitRef, server, client, Env}
use udp_kcp_plugin.System.Calls.{bind}
use udp_kcp_plugin.NetUnit.{set_handle}
use udp_kcp_plugin.Client.{update as client_update, client_recv}
use udp_kcp_plugin.Dispatch.{
  add, mod_, NetEventInfo, ene_read, max_req_per_time, attach_handle_to_dispatch, dispatch_update,
}
use udp_kcp_plugin.Dispatch.Windows.{WinEvent, WinInfo, dispatch_update_windows}
use udp_kcp_plugin.Server.{World, lift, load, get, set_server, set_posts, at_client, ctl_udp_event}
use udp_kcp_plugin.Socket.{new_socket, prepare, any_addr}
use udp_kcp_plugin.Server.Peers.{server_recv_linux, server_recv_windows}

unfoldable pub set_run : Bool → Prog World (Unit {0})
unfolding set_server
set_run b w = set_server (record (w.server) { running = b }) w

unfoldable stop_run : Prog World (Unit {0})
unfolding set_run
stop_run = set_run false

module _ (e : Env) where
  open e use {build}

  -- Behind a successful `bind`.
  unfoldable pub start_listen : Handle → Prog World Bool
  unfolding lift get set_server ctl_udp_event set_run set_handle
  start_listen soc = do
    w ← get
    set_server (record (w.server) { sock = set_handle w.server.sock soc })
    _ ← lift (attach_handle_to_dispatch e w.server.dispatch soc server)
    armed ← ctl_udp_event e add ene_read server
    (if not armed then pure false else (do set_run true; pure true))

  -- The socket is not closed where `bind` fails.
  unfoldable pub try_listen : Prog World Bool
  unfolding lift get prepare start_listen
  try_listen = do
    w ← get
    (if is_set w.server.sock then pure false else (do
      soc ← lift (new_socket e)
      (if not (is_set soc) then pure false else (do
        lift (prepare soc)
        bound ← lift (bind e soc (any_addr w.server.port))
        (if not bound then pure false else start_listen soc)))))

  unfoldable pub update_client : ℕ → List (ℕ × ℕ) → Prog World (Unit {0})
  unfolding lift load
  update_client dlt [] = pure tt
  update_client dlt ((id, p) ∷ rest) = do
    c ← load p
    lift (client_update e c dlt)
    update_client dlt rest

  -- `pUnit->Recv(NULL, 0, addr)`, by the class of the unit.
  unfoldable pub unit_recv_linux : UnitRef → Prog World (Unit {0})
  unfolding server_recv_linux at_client
  unit_recv_linux server = server_recv_linux e
  unit_recv_linux (client p) = at_client p (λ c. client_recv e c none)

  -- One entry of the `switch`: only a pure ENE_READ is acted on.
  unfoldable pub handle_event_linux : NetEventInfo → Prog World (Unit {0})
  unfolding unit_recv_linux
  handle_event_linux ev = if ev.evt == ene_read then unit_recv_linux ev.userdata else pure tt

  unfoldable pub handle_all_linux : List NetEventInfo → Prog World (Unit {0})
  unfolding handle_event_linux
  handle_all_linux [] = pure tt
  handle_all_linux (ev ∷ evs) = do handle_event_linux ev; handle_all_linux evs

  -- `pUnit->Recv(poReal->buf, poReal->len, poReal->addr)`.
  unfoldable pub unit_recv_windows : UnitRef → Bytes → Addr → Prog World (Unit {0})
  unfolding server_recv_windows at_client
  unit_recv_windows server bs a = server_recv_windows e bs a
  unit_recv_windows (client p) bs a = at_client p (λ c. client_recv e c (some bs))

  -- `delete poReal`
  unfoldable pub delete_info : ℕ → Prog World (Unit {0})
  unfolding set_posts
  delete_info i w = set_posts (record (w.posts) { infos = erase i w.posts.infos }) w

  unfoldable pub read_windows : ℕ → Option WinInfo → Prog World (Unit {0})
  unfolding unit_recv_windows ctl_udp_event delete_info
  read_windows i none = abort dead_pointer
  read_windows i (some real) = do
    unit_recv_windows real.userdata real.buf real.addr
    _ ← ctl_udp_event e mod_ ene_read real.userdata
    delete_info i

  unfoldable pub handle_event_windows : WinEvent → Prog World (Unit {0})
  unfolding get read_windows
  handle_event_windows ev =
      if ev.evt == ene_read
      then (do w ← get; read_windows ev.info (lookup ev.info w.posts.infos))
      else pure tt

  unfoldable pub handle_all_windows : List WinEvent → Prog World (Unit {0})
  unfolding handle_event_windows
  handle_all_windows [] = pure tt
  handle_all_windows (ev ∷ evs) = do handle_event_windows ev; handle_all_windows evs

  -- The entries of the array are written, and then gone through.
  unfoldable pub poll_windows : Prog World (Unit {0})
  unfolding lift get set_posts set_server handle_all_windows
  poll_windows = do
    w ← get
    (p, evs) ←
        lift (dispatch_update_windows e w.server.dispatch max_req_per_time w.server.events w.posts)
    set_posts p
    set_server (record (w.server) { events = evs ++ drop (length evs) w.server.events })
    handle_all_windows evs

  unfoldable pub poll_linux : Prog World (Unit {0})
  unfolding lift get handle_all_linux
  poll_linux = do
    w ← get
    evs ← lift (dispatch_update e w.server.dispatch max_req_per_time)
    handle_all_linux evs

  -- `Update` of the server.
  unfoldable pub server_update : ℕ → Prog World (Unit {0})
  unfolding get update_client poll_linux poll_windows
  server_update dlt = do
    w ← get
    update_client dlt w.server.clients
    (if build.is_linux then poll_linux else poll_windows)

  -- `Send` of the server ends the program.
  unfoldable server_send : Bytes → Prog World (Unit {0})
  server_send bs = abort (exits 99)
