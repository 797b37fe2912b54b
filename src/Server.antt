-- ===== src/Server.antt =====
-- The server: wheel/src/UDPServer.h and wheel/src/UDPServer.cpp, on both platforms, over a heap of
-- client objects.
pub mod Peers
pub mod Run
pub mod Life
pub mod View
pub mod Sound
pub mod ViewSteps
pub mod Changes
pub mod Posting
pub mod Attach
pub mod Pending
pub mod Admit
pub mod Deliver
pub mod Apart
pub mod Isolation
pub mod Welcome
pub mod Inputs
pub mod Loop
pub mod Free
pub mod Updates
pub mod Answers
pub mod Service
pub mod Reading
pub mod Attends
pub mod Joins
pub mod Hosting
pub mod Hosts
pub mod Finishes
pub mod Session
pub mod Converse
pub mod Piles
pub mod Sockets
pub mod Listen
pub mod Turns
pub mod Reads
pub mod Windows
pub mod Rounds
pub mod Refines
pub mod Program
pub mod Whole
pub mod Completions
use udp_kcp_plugin.Base.{
  ℕ, suc, ◌+◌, Bool, true, false, Option, none, some, List, [], ◌∷◌, ◌++◌, ltb, ◌==◌, is_set, not,
  if◌then◌else◌, length, take, drop, replicate,
}
use udp_kcp_plugin.Base.Assoc.{lookup, insert, erase}
use udp_kcp_plugin.Base.Outcome.{ok, fault, Prog, pure, abort, ◌>>=◌, ◌>>◌, dead_pointer, exits}
use udp_kcp_plugin.System.{
  Bytes, Handle, Addr, UnitRef, server, client, Log, Env, made_reusable, made_nonblocking,
}
use udp_kcp_plugin.System.Calls.{note, close, open_socket, bind, connect, recv_from}
use udp_kcp_plugin.Address.{make_unique_id, htons}
use udp_kcp_plugin.NetUnit.{fresh_sock, set_handle, net_unit_destroy}
use udp_kcp_plugin.Client.{
  Client, get_unique_id, accepted, max_client_buff_len, new_client, set_client_type, destroy,
  update as client_update, client_recv,
}
use udp_kcp_plugin.Dispatch.{
  NetEventOp, add, mod_, NetUnitType, listen, peer_client, NetProtocolType, udp, NetEventInfo,
  ene_read, max_req_per_time, un_init, init, attach_handle_to_dispatch, ctl_event, dispatch_update,
}
use udp_kcp_plugin.Dispatch.Windows.{
  WinEvent, WinInfo, Posts, ctl_event_windows, dispatch_update_windows,
}

-- The members of the server. `clients` is `m_AllClients`: from identities to client objects, in the
-- order of insertion (that of an unordered_map is not specified).
pub record Server : Type 0 where
  pub sock : Handle
  pub dispatch : Handle
  pub ip : Bytes
  pub port : ℕ
  pub running : Bool
  pub events : List WinEvent
  pub clients : List (ℕ × ℕ)

-- `IsRun`, `GetPort` and `GetIntIp`.
abbrev pub is_run : Server → Bool
is_run s = s.running

abbrev pub get_port : Server → ℕ
get_port s = s.port

abbrev pub get_int_ip : Server → ℕ
get_int_ip s = 0

-- `GetUnitType`, by the class of the unit.
abbrev pub get_unit_type : UnitRef → NetUnitType
get_unit_type server = listen
get_unit_type (client p) = peer_client

-- Everything that a method of the server can change.
pub record World : Type 0 where
  pub log : Log
  pub heap : List (ℕ × Client)
  pub next : ℕ
  pub posts : Posts
  pub server : Server

-- A call that touches the log only.
unfoldable pub lift : {A : Type 0} → Prog Log A → Prog World A
lift m w = elim (m w.log) [ ok (a, l) ↦ ok (a, record w { log = l }) | fault f ↦ fault f ]

-- `new`, at an address that was not used before.
unfoldable pub alloc : Client → Prog World ℕ
alloc c w = ok (w.next, record w { heap = (w.next, c) ∷ w.heap; next = suc w.next })

-- A member function of a client that is behind a pointer reads the object.
unfoldable pub load : ℕ → Prog World Client
load p w = elim (lookup p w.heap) [ none ↦ fault dead_pointer | some c ↦ ok (c, w) ]

unfoldable pub store : ℕ → Client → Prog World (Unit {0})
store p c w = ok (tt, record w { heap = insert p c w.heap })

unfoldable pub get : Prog World World
get w = ok (w, w)

unfoldable pub set_server : Server → Prog World (Unit {0})
set_server s w = ok (tt, record w { server = s })

unfoldable pub set_posts : Posts → Prog World (Unit {0})
set_posts p w = ok (tt, record w { posts = p })

-- A member function of the client behind a pointer, and the members that it leaves.
unfoldable pub at_client : ℕ → (Client → Prog Log Client) → Prog World (Unit {0})
unfolding lift load store
at_client p m = do c ← load p; c' ← lift (m c); store p c'

module _ (e : Env) where
  open e use {build}

  -- `delete`
  unfoldable pub delete_client : ℕ → Prog World (Unit {0})
  unfolding lift load
  delete_client p = do
    c ← load p
    lift (destroy e c)
    λ w. ok (tt, record w { heap = erase p w.heap })

  -- `GetHandle` of a unit.
  unfoldable pub get_handle : UnitRef → Prog World Handle
  unfolding load
  get_handle server w = ok (w.server.sock, w)
  get_handle (client p) w = (load p >>= λ c. pure c.sock) w

  -- `GetUniqueID` of a unit.
  unfoldable pub unit_unique_id : UnitRef → Prog World ℕ
  unfolding load
  unit_unique_id server = pure 4294967295
  unit_unique_id (client p) = load p >>= λ c. pure (get_unique_id c)

  -- It asks for ENE_READ, whatever `ev` is.
  unfoldable pub ctl_udp_event : NetEventOp → ℕ → UnitRef → Prog World Bool
  unfolding lift get_handle get set_posts
  ctl_udp_event op ev userdata = do
    sock ← get_handle userdata
    w ← get
    (if build.is_linux
        then lift (ctl_event e w.server.dispatch op sock ene_read userdata udp)
        else (do
          (p, done) ← lift (ctl_event_windows e op sock ene_read userdata udp w.posts)
          set_posts p
          pure done))

  -- The entry of the map, once the dispatcher has the client.
  unfoldable pub emplace : ℕ → ℕ → Prog World (Unit {0})
  unfolding set_server
  emplace id p w = set_server (record (w.server) { clients = w.server.clients ++ ((id, p) ∷ []) }) w

  unfoldable pub attach_net_client : ℕ → Prog World Bool
  unfolding lift load get ctl_udp_event emplace
  attach_net_client p = do
    c ← load p
    w ← get
    (if is_set (lookup c.big_id w.server.clients) then pure false else (do
      there ← lift (attach_handle_to_dispatch e w.server.dispatch c.sock (client p))
      (if not there then pure false else (do
        armed ← ctl_udp_event add ene_read (client p)
        (if not armed then pure false else (do emplace c.big_id p; pure true))))))
