-- ===== src/Server/Welcome.antt =====
-- A new peer is answered: the whole way of its first datagram, where no call of the system fails.
use udp_kcp_plugin.Base.{ℕ, ◌≡◌, refl, true, some, none, Option, ◌∷◌, arith}
use udp_kcp_plugin.Base.Assoc.{lookup, insert, lookup-insert, lookup-append}
use udp_kcp_plugin.Base.Outcome.{chain, ok, Prog, pure}
use udp_kcp_plugin.Base.Hoare.{Returns}
use udp_kcp_plugin.System.{
  Bytes, Addr, Handle, UnitRef, client, Log, Env, attached, armed, connected, sent,
}
use udp_kcp_plugin.Address.{make_unique_id}
use udp_kcp_plugin.Address.Laws.{make_unique_id-lt}
use udp_kcp_plugin.NetUnit.{set_handle, fresh_sock}
use udp_kcp_plugin.Socket.{prepare, open_udp, any_addr}
use udp_kcp_plugin.Buffer.{u32_bytes}
use udp_kcp_plugin.Client.{
  Client, accepted, new_client, fresh_client, set_some_info_by_addr, client_recv, set_client_type,
}
use udp_kcp_plugin.Client.Handshake.{IsNew, made_block, client_recv-accepted}
use udp_kcp_plugin.Dispatch.{ene_read, attach_handle_to_dispatch, ctl_event}
use udp_kcp_plugin.Server.{
  World, lift, load, store, at_client, attach_net_client, ctl_udp_event, get_handle, emplace,
  set_server,
}
use udp_kcp_plugin.Server.Peers.{new_net_client, recv_at, recv_at_new, on_recv_by_addr}
use udp_kcp_plugin.Server.Changes.{allocated, entered}
use udp_kcp_plugin.Server.Sockets.{bound_socket}

-- No call fails for socket `fd`, and the library gives the peer's conversation block `b`.
pub record Works (e : Env) (fd b : ℕ) (peer : Addr) (port : ℕ) : Type 0 where
  pub linux : e.build.is_linux ≡ true
  pub kcp_on : e.build.with_kcp ≡ true
  pub binds : (l : Log) → e.os.bind l (some fd) (any_addr port) ≡ true
  pub connects : (l : Log) → e.os.connect l (some fd) peer ≡ true
  pub attaches : (l : Log) (d : Handle) (u : UnitRef) → e.os.attach l d (some fd) u ≡ true
  pub arms : (l : Log) (d : Handle) (u : UnitRef) → e.os.arm l d (some fd) ene_read u ≡ true
  pub creates : (l : Log) → e.kcp.create l (make_unique_id peer) ≡ some b

-- The calls of taking a peer on, newest first.
abbrev pub taken_on : Handle → Handle → ℕ → Addr → ℕ → Log → Log
taken_on d fd p peer port l =
    armed d fd ene_read (client p) true
    ∷ attached d fd (client p) true
    ∷ connected fd peer true
    ∷ bound_socket fd port true l

-- A member function that returns is run on the object and its result stored.
pub at_client-ok :
    (w : World) (p : ℕ) (c c' : Client) (m : Client → Prog Log Client) (l : Log)
    → lookup p w.heap ≡ some c
    → m c w.log ≡ ok (c', l)
    → at_client p m w ≡ ok (tt, record w { log = l; heap = insert p c' w.heap })
unfolding at_client load lift store
at_client-ok w p c c' m l h k = ground arith

on_recv_by_addr-new :
    (e : Env) (w : World) (bs : Bytes) (addr : Addr)
    → lookup (make_unique_id addr) w.server.clients ≡ none
    → on_recv_by_addr e bs addr w ≡ chain (new_net_client e addr w) (recv_at_new e bs)
unfolding on_recv_by_addr
on_recv_by_addr-new e w bs addr n = ground arith

-- A peer's new client, with its kind.
abbrev accepted_client : Addr → ℕ → Client
accepted_client peer fd = set_client_type (new_client peer (some fd)) accepted

module _ (e : Env) (fd b : ℕ) (peer : Addr) where
  attach_net_client-accepted :
      (w : World) (p : ℕ) (c : Client)
      → Works e fd b peer w.server.port
      → lookup p w.heap ≡ some c
      → c.sock ≡ some fd
      → lookup c.big_id w.server.clients ≡ none
      → attach_net_client e p w
        ≡ ok (
          true,
          record (entered w c.big_id p) {
            log =
                armed w.server.dispatch (some fd) ene_read (client p) true
                ∷ attached w.server.dispatch (some fd) (client p) true
                ∷ w.log;
          },
        )
  unfolding attach_net_client attach_handle_to_dispatch ctl_udp_event get_handle ctl_event emplace
      set_server
  attach_net_client-accepted w p c k h s n = ground (
    arith,
    k.attaches w.log w.server.dispatch (client p),
    k.arms (attached w.server.dispatch (some fd) (client p) true ∷ w.log) w.server.dispatch
        (client p),
  )

  -- The state with the peer's client in the heap and in the map.
  abbrev taken : World → World
  taken w =
      record (entered (allocated w (new_client peer (some fd))) (make_unique_id peer) w.next) {
        log = taken_on w.server.dispatch (some fd) w.next peer w.server.port w.log;
        heap =
            insert w.next (accepted_client peer fd) (allocated w (new_client peer (some fd))).heap;
      }

  new_net_client-taken :
      (w : World)
      → Works e fd b peer w.server.port
      → e.os.open_socket w.log ≡ some fd
      → lookup (make_unique_id peer) w.server.clients ≡ none
      → new_net_client e peer w ≡ ok (some w.next, taken w)
  unfolding new_net_client open_udp prepare new_client
  new_net_client-taken w k o n =
      let d : Client = new_client peer (some fd) in
      let v : World = record (allocated w d) {
        log = connected (some fd) peer true ∷ bound_socket (some fd) w.server.port true w.log;
      } in
      let here : lookup w.next v.heap ≡ some d = unfold lookup in ground arith in
      simp (o, k.binds, k.connects)
        (rw (attach_net_client-accepted v w.next d k here refl n) (
          rw (
            at_client-ok
              (record (entered v d.big_id w.next) {
                log = taken_on w.server.dispatch (some fd) w.next peer w.server.port w.log;
              })
              w.next d (accepted_client peer fd) (λ c. pure (set_client_type c accepted)) _ here
              refl)))

  -- The client once its conversation stands, and the calls of the offer, newest first.
  abbrev pub talking : Client
  talking = record (accepted_client peer fd) { conv_id = make_unique_id peer; block = some b }

  abbrev pub offered : Log → Log
  offered l =
      sent (some fd) (u32_bytes (make_unique_id peer)) ∷ made_block (make_unique_id peer) b l

  accepted_client-IsNew : IsNew (accepted_client peer fd)
  unfolding new_client fresh_client set_some_info_by_addr set_client_type
  accepted_client-IsNew = record { no_conv = refl; no_block = refl }

  client_recv-offers :
      (bs : Bytes) (l : Log) (port : ℕ)
      → Works e fd b peer port
      → client_recv e (accepted_client peer fd) (some bs) l ≡ ok (talking, offered l)
  unfolding new_client set_some_info_by_addr set_client_type fresh_client set_handle fresh_sock
  client_recv-offers bs l port k =
      client_recv-accepted e k.kcp_on (accepted_client peer fd) (some bs) b l accepted_client-IsNew
        refl (make_unique_id-lt peer) (k.creates l)

  -- The peer has its new client, and the calls were those of taking it on and of the offer.
  abbrev pub Welcomed : World → Option ℕ × World → Type 0
  Welcomed w r =
      (r.0 ≡ some w.next)
      × (lookup (make_unique_id peer) r.1.server.clients ≡ some w.next)
      × (lookup w.next r.1.heap ≡ some talking)
      × (r.1.log ≡ offered (taken_on w.server.dispatch (some fd) w.next peer w.server.port w.log))

  -- On Linux with KCP on, for a peer whose identity has no client, and where no call of the system fails
  -- and the library has a block: the peer's first datagram makes the server return with a new client,
  -- which is the entry of the peer's identity, has the new socket, the identity for its
  -- conversation and the block; and the calls, in order, open, prepare, bind and connect the socket,
  -- attach and arm it, make the block, and last send the peer the four bytes of its identity.
  pub on_recv_by_addr-welcomes :
      (w : World) (bs : Bytes)
      → Works e fd b peer w.server.port
      → e.os.open_socket w.log ≡ some fd
      → lookup (make_unique_id peer) w.server.clients ≡ none
      → Returns (Welcomed w) (on_recv_by_addr e bs peer w)
  unfolding recv_at_new recv_at
  on_recv_by_addr-welcomes w bs k o n =
      let c : Client = accepted_client peer fd in
      let here : lookup w.next (taken w).heap ≡ some c =
        ground
          (arith, lookup-insert w.next w.next c (allocated w (new_client peer (some fd))).heap) in
      rw (on_recv_by_addr-new e w bs peer n, new_net_client-taken w k o n)
        (rw
          (at_client-ok (taken w) w.next c talking (λ c'. client_recv e c' (some bs))
            (offered (taken w).log) here (client_recv-offers bs (taken w).log w.server.port k))
          (
            refl,
            ground (
              arith,
              lookup-append w.server.clients (make_unique_id peer) w.next (make_unique_id peer),
            ),
            ground (arith, lookup-insert w.next w.next talking (taken w).heap),
            refl,
          ))
