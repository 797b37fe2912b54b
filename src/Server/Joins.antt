-- ===== src/Server/Joins.antt =====
-- A new peer is taken on while others are in service: it is in service too, and they still are.
use udp_kcp_plugin.Base.{ℕ, ◌≡◌, ◌≢◌, ◌⊎◌, refl, sym, subst, inl, inr, none, some, Option, true}
use udp_kcp_plugin.Base.Assoc.{lookup}
use udp_kcp_plugin.Base.Outcome.{ok}
use udp_kcp_plugin.Base.Tame.{Safe}
use udp_kcp_plugin.Server.Admit.{Admits}
use udp_kcp_plugin.Base.Hoare.{Returns, Returns-ok}
use udp_kcp_plugin.System.{Bytes, Addr, Log, Env}
use udp_kcp_plugin.Address.{make_unique_id}
use udp_kcp_plugin.Plug.{use_kcp_plug}
use udp_kcp_plugin.Client.{
  Client, get_kcp_conv_id, new_client, fresh_client, set_some_info_by_addr, set_client_type,
}
use udp_kcp_plugin.Client.Decimal.{decimal}
use udp_kcp_plugin.Plug.Silence.{AllAnswered}
use udp_kcp_plugin.Server.{World}
use udp_kcp_plugin.Server.Peers.{on_recv_by_addr}
use udp_kcp_plugin.Server.Sound.{IsSound}
use udp_kcp_plugin.Server.Apart.{Apart}
use udp_kcp_plugin.Server.Isolation.{on_recv_by_addr-Apart}
use udp_kcp_plugin.Server.Deliver.{on_recv_by_addr-Safe}
use udp_kcp_plugin.Server.Welcome.{Works, talking, Welcomed, on_recv_by_addr-welcomes}
use udp_kcp_plugin.Server.Updates.{LogOnly, update_client-Returns}
use udp_kcp_plugin.Server.Run.{server_update}
use udp_kcp_plugin.Server.Answers.{Heard, Answered, heard, server_update-answered}
use udp_kcp_plugin.Server.Service.{Speaks, InService, LogOnly-Served}

-- Those in service, and the client at one more address.
abbrev pub With : (ℕ → Type 0) → ℕ → ℕ → Type 0
With In p q = In q ⊎ (q ≡ p)

module _ (e : Env) (In : ℕ → Type 0) (Kind : ℕ → Bytes → Type 0) where
  talking-Speaks :
      (v : World) (fd b p n : ℕ) (peer : Addr)
      → e.build.with_kcp ≡ true
      → lookup p v.heap ≡ some (talking e fd b peer)
      → make_unique_id peer ≢ 0
      → Kind b (decimal (make_unique_id peer))
      → Speaks e (With In n) Kind v p
  unfolding get_kcp_conv_id use_kcp_plug new_client fresh_client set_some_info_by_addr
      set_client_type
  talking-Speaks v fd b p n peer on object z kind = record {
    c = talking e fd b peer;
    b = b;
    object = object;
    past = rw on z;
    block = refl;
    room = record { full_size = refl; at_start = refl };
    kind = kind;
  }

  pub on_recv_by_addr-joins :
      (w : World) (fd b : ℕ) (peer : Addr) (bs : Bytes)
      → IsSound w
      → InService e In Kind w
      → Works e fd b peer w.server.port
      → e.os.open_socket w.log ≡ some fd
      → lookup (make_unique_id peer) w.server.clients ≡ none
      → make_unique_id peer ≢ 0
      → Kind b (decimal (make_unique_id peer))
      → Returns
          (λ (r : Option ℕ × World).
            Welcomed e fd b peer w r × InService e (With In w.next) Kind r.1)
          (on_recv_by_addr e bs peer w)
  on_recv_by_addr-joins w fd b peer bs s x k o n z kind =
      let ((p, v), got, (who, entry, object, calls)) =
        Returns-ok (Welcomed e fd b peer w) (on_recv_by_addr e bs peer w)
          (on_recv_by_addr-welcomes e fd b peer w bs k o n) in
      let after : Safe (Admits w) (ok (p, v)) =
        subst (Safe (Admits w)) got (on_recv_by_addr-Safe e w bs peer s) in
      rw got (
        (who, entry, object, calls),
        record {
          entries = after.0.sound.entries;
          speaks = speaks p v got object;
          all_answered = subst (AllAnswered Kind) (sym calls) x.all_answered;
        },
      )
    where
      beside :
          (q : ℕ) (d : Client) (p : Option ℕ) (v : World)
          → on_recv_by_addr e bs peer w ≡ ok (p, v)
          → lookup q w.heap ≡ some d
          → lookup q v.heap ≡ some d
      beside q d p v got h =
          let apart : Safe (λ (r : Option ℕ × World). Apart (make_unique_id peer) q w r.1)
              (ok (p, v)) =
            subst (Safe (λ (r : Option ℕ × World). Apart (make_unique_id peer) q w r.1)) got
              (on_recv_by_addr-Apart e w bs peer q d s h (λ y. absurd (cc))) in
          apart.same_object d h

      speaks :
          (p : Option ℕ) (v : World)
          → on_recv_by_addr e bs peer w ≡ ok (p, v)
          → lookup w.next v.heap ≡ some (talking e fd b peer)
          → (q : ℕ) → With In w.next q
          → Speaks e (With In w.next) Kind v q
      speaks p v got object q (inl inside) =
          let y : Speaks e In Kind w q = x.speaks q inside in
          record {
            c = y.c;
            b = y.b;
            object = beside q y.c p v got y.object;
            past = y.past;
            block = y.block;
            room = y.room;
            kind = y.kind;
          }
      speaks p v got object q (inr at) =
          subst (λ q'. Speaks e (With In w.next) Kind v q') (sym at)
            (talking-Speaks v fd b w.next w.next peer k.kcp_on object z kind)

  -- On Linux with KCP on, from a state in which the client map and the heap agree, with any
  -- clients in service, where no call for a new socket fails and the library has a block: a round
  -- in which only the server's socket is reported, with a datagram of a peer that has no client,
  -- an identity other than 0, and a decimal text that its block may be given, returns; the peer
  -- then has a new client, in conversation under its own identity, the last call has sent it that
  -- identity, and the new client is in service together with all that were.
  pub server_update-joins :
      (w : World) (dlt fd b : ℕ) (peer : Addr) (bs : Bytes)
      → IsSound w
      → InService e In Kind w
      → Works e fd b peer w.server.port
      → ((l : Log) → e.os.open_socket l ≡ some fd)
      → Heard e w.server bs peer
      → lookup (make_unique_id peer) w.server.clients ≡ none
      → make_unique_id peer ≢ 0
      → Kind b (decimal (make_unique_id peer))
      → Returns
          (λ (r : Unit {0} × World).
            Answered e fd b peer w r × InService e (With In w.next) Kind r.1)
          (server_update e dlt w)
  server_update-joins w dlt fd b peer bs s x k o h n z kind =
      let ((u, v), got, (same, all)) =
        Returns-ok (λ (r : Unit {0} × World). LogOnly Kind w r.1) _
          (update_client-Returns e Kind dlt w w.server.clients s.entries) in
      let y : World = heard e w v.log bs peer in
      let there : InService e In Kind y = (LogOnly-Served e In Kind w y x (refl, all)).service in
      let ((p, t), done, ((_, entry, object, calls), service)) =
        Returns-ok
          (λ (r : Option ℕ × World).
            Welcomed e fd b peer y r × InService e (With In w.next) Kind r.1)
          _
          (on_recv_by_addr-joins y fd b peer bs
            (record { fresh = s.fresh; entries = s.entries; distinct = s.distinct }) there k
            (o y.log) n z kind) in
      rw (server_update-answered e w v dlt u bs peer p t k.linux got same h done)
        ((entry, object, (y.log, calls)), service)
