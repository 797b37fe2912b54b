-- ===== src/Server/Sockets.antt =====
-- Which sockets the server opens and closes: `TryListen` and the failures of `NewNetClient`.
use udp_kcp_plugin.Base.{
  ℕ, ◌≡◌, refl, Bool, true, false, not, none, some, ◌∷◌, ◌&&◌, ◌||◌, arith, if◌then◌else◌,
}
use udp_kcp_plugin.Base.Assoc.{lookup}
use udp_kcp_plugin.Base.Outcome.{ok, Prog, pure}
use udp_kcp_plugin.Base.Hoare.{Returns, Returns-chain}
use udp_kcp_plugin.System.{
  Addr, Handle, UnitRef, client, Log, Ready, Env, opened, made_reusable, made_nonblocking, bound,
  connected, attached, closed,
}
use udp_kcp_plugin.Address.{make_unique_id}
use udp_kcp_plugin.NetUnit.{net_unit_destroy}
use udp_kcp_plugin.Plug.{kcp_release}
use udp_kcp_plugin.Client.{Client, new_client, destroy}
use udp_kcp_plugin.Dispatch.{translate, attach_handle_to_dispatch}
use udp_kcp_plugin.Dispatch.Laws.{translate-read, translate-userdata}
use udp_kcp_plugin.Server.{World, delete_client, attach_net_client}
use udp_kcp_plugin.Server.Changes.{allocated}
use udp_kcp_plugin.Socket.{prepare, open_udp, any_addr}
use udp_kcp_plugin.Server.Peers.{new_net_client}
use udp_kcp_plugin.Server.Run.{unit_recv_linux, handle_event_linux}

-- The calls that make a socket for a port, up to `bind`, newest first.
abbrev pub bound_socket : Handle → ℕ → Bool → Log → Log
bound_socket fd port b l =
    bound fd (any_addr port) b ∷ made_nonblocking fd ∷ made_reusable fd ∷ opened fd ∷ l

if_run :
    {S A : Type 0} (b : Bool) (m k : Prog S A) (s : S)
    → (if b then m else k) s ≡ (if b then m s else k s)
if_run true m k s = refl
if_run false m k s = refl

module _ (e : Env) where
  attach_net_client-refused :
      (w : World) (p : ℕ) (c : Client)
      → lookup p w.heap ≡ some c
      → lookup c.big_id w.server.clients ≡ none
      → e.os.attach w.log w.server.dispatch c.sock (client p) ≡ false
      → attach_net_client e p w
        ≡ ok (false, record w { log = attached w.server.dispatch c.sock (client p) false ∷ w.log })
  unfolding attach_net_client attach_handle_to_dispatch
  attach_net_client-refused w p c h n a = ground arith

  delete_client-log :
      (w : World) (p fd : ℕ) (c : Client)
      → lookup p w.heap ≡ some c
      → c.sock ≡ some fd
      → c.block ≡ none
      → Returns (λ r. r.1.log ≡ closed (some fd) ∷ w.log) (delete_client e p w)
  unfolding delete_client destroy kcp_release net_unit_destroy
  delete_client-log w p fd c h s b = ground arith

  -- A unit gets `Recv` for what `epoll_wait` reports of it exactly where that is input and nothing
  -- else. The bug: input that comes with an error, a hang-up or room to write is passed over, and
  -- the state is left as it was.
  pub handle_event_linux-translate :
      (r : Ready) (w : World)
      → handle_event_linux e (translate r) w ≡ (
          if r.has_in && not (r.has_err || r.has_hup || r.has_out)
          then unit_recv_linux e r.userdata w
          else ok (tt, w))
  unfolding handle_event_linux
  handle_event_linux-translate r w =
      rw (translate-read r, translate-userdata r)
        (if_run (r.has_in && not (r.has_err || r.has_hup || r.has_out))
          (unit_recv_linux e r.userdata) (pure tt) w)

  -- The bug: where `bind` fails, the new socket is left open. No client comes of it, and the calls are
  -- those that opened and bound it, with no `close`; nothing else changes.
  pub new_net_client-leaks :
      (w : World) (raddr : Addr) (fd : ℕ)
      → e.os.open_socket w.log ≡ some fd
      → ((l : Log) → e.os.bind l (some fd) (any_addr w.server.port) ≡ false)
      → new_net_client e raddr w
        ≡ ok (none, record w { log = bound_socket (some fd) w.server.port false w.log })
  unfolding new_net_client open_udp prepare
  new_net_client-leaks w raddr fd h b =
      ground
        (arith, b (made_nonblocking (some fd) ∷ made_reusable (some fd) ∷ opened (some fd) ∷ w.log))

  -- The bug: for a peer whose identity is new, and where the socket can be opened, bound and connected
  -- but the dispatcher refuses it, the socket is closed twice, by `NewNetClient` and by the destructor
  -- of the object that it deletes. No client comes of it.
  pub new_net_client-double_close :
      (w : World) (raddr : Addr) (fd : ℕ)
      → e.os.open_socket w.log ≡ some fd
      → ((l : Log) → e.os.bind l (some fd) (any_addr w.server.port) ≡ true)
      → ((l : Log) → e.os.connect l (some fd) raddr ≡ true)
      → lookup (make_unique_id raddr) w.server.clients ≡ none
      → ((l : Log) (u : UnitRef) → e.os.attach l w.server.dispatch (some fd) u ≡ false)
      → Returns
          (λ r.
            (r.0 ≡ none)
            × (r.1.log
                ≡ closed (some fd)
                  ∷ closed (some fd)
                  ∷ attached w.server.dispatch (some fd) (client w.next) false
                  ∷ connected (some fd) raddr true
                  ∷ bound_socket (some fd) w.server.port true w.log))
          (new_net_client e raddr w)
  unfolding new_net_client open_udp prepare new_client
  new_net_client-double_close w raddr fd h b c n a =
      let p : Log = bound_socket (some fd) w.server.port true w.log in
      let d : Client = new_client raddr (some fd) in
      let v : World = record (allocated w d) { log = connected (some fd) raddr true ∷ p } in
      let u : World = record v {
        log = closed (some fd) ∷ attached v.server.dispatch (some fd) (client w.next) false ∷ v.log;
      } in
      let here : lookup w.next v.heap ≡ some d = unfold lookup in ground arith in
      let free : lookup d.big_id w.server.clients ≡ none = unfold new_client in n in
      let mine : d.sock ≡ some fd = unfold new_client in refl in
      simp (h, b, c)
        (rw (attach_net_client-refused v w.next d here free (a v.log (client w.next))) (
          Returns-chain (λ r. r.1.log ≡ closed (some fd) ∷ u.log)
            (λ r.
              (r.0 ≡ none)
              × (r.1.log
                  ≡ closed (some fd)
                    ∷ closed (some fd)
                    ∷ attached w.server.dispatch (some fd) (client w.next) false
                    ∷ connected (some fd) raddr true
                    ∷ bound_socket (some fd) w.server.port true w.log))
            (delete_client e w.next u) (λ x. pure none)
            (delete_client-log u w.next fd d here mine refl) (λ x t l. (refl, l))))
