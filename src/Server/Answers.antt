-- ===== src/Server/Answers.antt =====
-- A whole round on Linux in which a new peer is heard: it is answered before the round ends.
use udp_kcp_plugin.Base.{ℕ, ◌≡◌, refl, ◌∙◌, ap, true, Option, none, some, [], ◌∷◌}
use udp_kcp_plugin.Base.Assoc.{lookup}
use udp_kcp_plugin.Base.Outcome.{chain, ok, pure}
use udp_kcp_plugin.Base.Hoare.{Returns, Returns-ok}
use udp_kcp_plugin.System.{Bytes, Addr, Log, Env, Ready, server, waited, received_from}
use udp_kcp_plugin.Address.{make_unique_id}
use udp_kcp_plugin.Client.{max_client_buff_len}
use udp_kcp_plugin.Dispatch.{max_req_per_time}
use udp_kcp_plugin.Server.{Server, World, lift, get}
use udp_kcp_plugin.Server.Sound.{IsSound}
use udp_kcp_plugin.Server.Peers.{on_recv_by_addr, server_recv_linux}
use udp_kcp_plugin.Server.Run.{update_client, poll_linux, server_update, unit_recv_linux}
use udp_kcp_plugin.Server.Updates.{LogOnly, update_client-Returns}
use udp_kcp_plugin.Server.Inputs.{only_input, poll_linux-recv_each}
use udp_kcp_plugin.Server.Welcome.{
  Works, talking, taken_on, offered, Welcomed, on_recv_by_addr-welcomes,
}

module _ (e : Env) where
  -- The server's socket has the datagram of the peer, and it is the only unit that is reported.
  pub record Heard (s : Server) (bs : Bytes) (peer : Addr) : Type 0 where
    pub event : Ready
    pub is_server : event.userdata ≡ server
    pub input_only : only_input event ≡ true
    pub waits : (l : Log) → e.os.wait l s.dispatch max_req_per_time ≡ some (event ∷ [])
    pub arrives : (l : Log) → e.os.recv_from l s.sock max_client_buff_len ≡ some (bs, peer)

  -- The peer has a new client in conversation, and the last call has sent it the identity.
  abbrev pub Answered : ℕ → ℕ → Addr → World → Unit {0} × World → Type 0
  Answered fd b peer w r =
      (lookup (make_unique_id peer) r.1.server.clients ≡ some w.next)
      × (lookup w.next r.1.heap ≡ some (talking e fd b peer))
      × ((l : Log) × (r.1.log
            ≡ offered e fd b peer
                (taken_on w.server.dispatch (some fd) w.next peer w.server.port l)))

  poll_linux-server_recv_linux :
      (w : World) (bs : Bytes) (peer : Addr) (h : Heard w.server bs peer)
      → poll_linux e w
        ≡ chain
            (server_recv_linux e
              (record w { log = waited w.server.dispatch max_req_per_time ∷ w.log }))
            (λ _. pure tt)
  unfolding unit_recv_linux
  poll_linux-server_recv_linux w bs peer h =
      poll_linux-recv_each e w ∙ rw (h.waits w.log) (simp (h.input_only, h.is_server) refl)

  -- The state in which the datagram is handled.
  abbrev pub heard : World → Log → Bytes → Addr → World
  heard w l bs peer = record w {
    log =
        received_from w.server.sock (some (bs, peer))
        ∷ waited w.server.dispatch max_req_per_time
        ∷ l;
  }

  pub server_recv_linux-on_recv_by_addr :
      (w : World) (bs : Bytes) (peer : Addr)
      → e.os.recv_from w.log w.server.sock max_client_buff_len ≡ some (bs, peer)
      → server_recv_linux e w
        ≡ chain
            (on_recv_by_addr e bs peer
              (record w { log = received_from w.server.sock (some (bs, peer)) ∷ w.log }))
            (λ _. pure tt)
  unfolding server_recv_linux get lift
  server_recv_linux-on_recv_by_addr w bs peer h = rw h refl

  pub server_update-linux :
      (w : World) (dlt : ℕ)
      → e.build.is_linux ≡ true
      → server_update e dlt w ≡ chain (update_client e dlt w.server.clients w) (λ u. poll_linux e)
  unfolding server_update get
  server_update-linux w dlt lin = simp (lin) refl

  pub server_update-answered :
      (w v : World) (dlt : ℕ) (u : Unit {0}) (bs : Bytes) (peer : Addr) (o : Option ℕ) (x : World)
      → e.build.is_linux ≡ true
      → update_client e dlt w.server.clients w ≡ ok (u, v)
      → v ≡ record w { log = v.log }
      → Heard w.server bs peer
      → on_recv_by_addr e bs peer (heard w v.log bs peer) ≡ ok (o, x)
      → server_update e dlt w ≡ ok (tt, x)
  server_update-answered w v dlt u bs peer o x lin got same h done =
      let poll : poll_linux e (record w { log = v.log }) ≡ ok (tt, x) =
        poll_linux-server_recv_linux (record w { log = v.log }) bs peer h
        ∙ rw
            (
              server_recv_linux-on_recv_by_addr
                  (record w { log = waited w.server.dispatch max_req_per_time ∷ v.log }) bs peer
                  (h.arrives (waited w.server.dispatch max_req_per_time ∷ v.log)),
              done,
            )
            refl in
      server_update-linux w dlt lin ∙ rw got (ap (poll_linux e) same ∙ poll)

  -- On Linux with KCP on, from a state in which the client map and the heap agree, where no call for a
  -- new socket fails and the library has a block: a round in which only the server's socket is
  -- reported, with a datagram of a peer that has no client, returns; the peer then has a new client,
  -- in conversation under its own identity, and the last call has sent it that identity.
  pub server_update-answers :
      (w : World) (dlt fd b : ℕ) (peer : Addr) (bs : Bytes)
      → IsSound w
      → Works e fd b peer w.server.port
      → ((l : Log) → e.os.open_socket l ≡ some fd)
      → Heard w.server bs peer
      → lookup (make_unique_id peer) w.server.clients ≡ none
      → Returns (Answered fd b peer w) (server_update e dlt w)
  server_update-answers w dlt fd b peer bs s k o h n =
      let ((u, v), got, (same, _)) =
        Returns-ok (λ (r : Unit {0} × World). LogOnly (λ _ _. Unit {0}) w r.1) _
          (update_client-Returns e (λ _ _. Unit {0}) dlt w w.server.clients s.entries) in
      let ((p, x), done, (_, entry, object, calls)) =
        Returns-ok (Welcomed e fd b peer (heard w v.log bs peer)) _ (
          on_recv_by_addr-welcomes e fd b peer (heard w v.log bs peer) bs k
            (o (heard w v.log bs peer).log) n) in
      rw (server_update-answered w v dlt u bs peer p x k.linux got same h done)
        (entry, object, ((heard w v.log bs peer).log, calls))
