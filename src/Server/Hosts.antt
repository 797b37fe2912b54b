-- ===== src/Server/Hosts.antt =====
-- The loop on Linux while peers come and talk.
use udp_kcp_plugin.Base.{
  ℕ, ◌≡◌, refl, sym, subst, inl, inr, none, some, true, List, [], ◌∷◌, Bool-cases, Option-cases,
}
use udp_kcp_plugin.Base.Assoc.{lookup}
use udp_kcp_plugin.Base.Outcome.{ok, chain, pure}
use udp_kcp_plugin.Base.Hoare.{Returns-ok}
use udp_kcp_plugin.Base.Tame.{Safe, Safe-chain}
use udp_kcp_plugin.System.{Bytes, Env, Ready, UnitRef, client, KcpRecvFits, received_from, waited}
use udp_kcp_plugin.Address.{make_unique_id}
use udp_kcp_plugin.Clock.{TimeOfDay, iclock}
use udp_kcp_plugin.Dispatch.{max_req_per_time}
use udp_kcp_plugin.Client.{max_client_buff_len}
use udp_kcp_plugin.Plug.Messages.{Quiet}
use udp_kcp_plugin.Server.{Server, World, get}
use udp_kcp_plugin.Server.Peers.{on_recv_by_addr, server_recv_linux}
use udp_kcp_plugin.Server.Run.{update_client, unit_recv_linux, poll_linux, server_update}
use udp_kcp_plugin.Server.Sound.{Steady, SameStore-log, SameStore-Evolves, lookup-Entries}
use udp_kcp_plugin.Server.Loop.{Moves, unit_recv_linux-Safe}
use udp_kcp_plugin.Server.Admit.{Admits}
use udp_kcp_plugin.Server.Deliver.{on_recv_by_addr-Safe}
use udp_kcp_plugin.Server.Inputs.{heard, reported, recv_each, poll_linux-recv_each}
use udp_kcp_plugin.Server.Answers.{server_recv_linux-on_recv_by_addr, server_update-linux}
use udp_kcp_plugin.Server.Session.{on_recv_by_addr-known}
use udp_kcp_plugin.Server.Updates.{LogOnly, update_client-Returns}
use udp_kcp_plugin.Server.Rounds.{serve}
use udp_kcp_plugin.Server.Reading.{at_client-Serves}
use udp_kcp_plugin.Server.Service.{LogOnly-Served, Serves}
use udp_kcp_plugin.Server.Attends.{
  IsOne, AllFrom, OnlyFrom, reported-AllFrom, recv_at-Serves, server_recv_linux-none,
}
use udp_kcp_plugin.Server.Hosting.{
  Entry, Hosts, Hosted, Hosting, Hosted-Hosts, Hosting-after, Hosting-then, Serves-Hosting,
  Welcomes, on_recv_by_addr-Hosting,
}

-- In every round that is run, the dispatcher reports no unit but the server and the clients that are
-- then in its map.
abbrev pub Follows : Env → World → List TimeOfDay → Type 0
Follows e w [] = Unit {0}
Follows e w (t ∷ ts) =
    ((v : World) (rs : List Ready)
      → update_client e (iclock t) w.server.clients w ≡ ok (tt, v)
      → e.os.wait v.log v.server.dispatch max_req_per_time ≡ some rs
      → OnlyFrom (Entry v) rs)
    × ((v : World) → server_update e (iclock t) w ≡ ok (tt, v) → Follows e v ts)

AllFrom-more :
    (In Out : ℕ → Type 0) (us : List UnitRef)
    → ((q : ℕ) → In q → Out q)
    → AllFrom In us
    → AllFrom Out us
AllFrom-more In Out [] f h = tt
AllFrom-more In Out (u ∷ us) f (inl one, rest) = (inl one, AllFrom-more In Out us f rest)
AllFrom-more In Out (u ∷ us) f (inr (q, one, inside), rest) =
    (inr (q, one, f q inside), AllFrom-more In Out us f rest)

module _ (e : Env) (quiet : Quiet e) (fits : KcpRecvFits e) (on : e.build.with_kcp ≡ true)
    (Kind : ℕ → Bytes → Type 0) where
  Welcomes-Steady : (s t : Server) → Steady s t → Welcomes e Kind s → Welcomes e Kind t
  Welcomes-Steady s t (sock, _, port, _) h = rw (sock, port) h

  -- Where all but the log is as it was, and every message is answered.
  logged-Hosted : (w v : World) → Hosts e Kind w → LogOnly Kind w v → Hosted e Kind w v
  logged-Hosted w v h (same, all) = subst (Hosted e Kind w) (sym same) (record {
    evolves = SameStore-Evolves w (record w { log = v.log }) h.sound (SameStore-log w v.log);
    service =
        (LogOnly-Served e (Entry w) Kind w (record w { log = v.log }) h.service
          (refl, all)).service;
  })

  server_recv_linux-Hosting :
      (w : World)
      → Welcomes e Kind w.server
      → Hosts e Kind w
      → Hosting e Kind w (server_recv_linux e w)
  server_recv_linux-Hosting w k h =
      elim (Option-cases (e.os.recv_from w.log w.server.sock max_client_buff_len)) [
        | inl r ↦ subst (Hosting e Kind w) (sym (server_recv_linux-none e w r)) (
            inl (
              logged-Hosted w (record w { log = received_from w.server.sock none ∷ w.log }) h
                (refl, λ x. x)))
        | inr ((bs, peer), r) ↦
            let v : World = record w {
              log = received_from w.server.sock (some (bs, peer)) ∷ w.log;
            } in
            let h' : Hosted e Kind w v = logged-Hosted w v h (refl, λ x. x) in
            let s : Hosts e Kind v = Hosted-Hosts e Kind w v h' in
            let safe : Safe (Moves v) (chain (on_recv_by_addr e bs peer v) (λ _. pure tt)) =
              Safe-chain (Admits v) (Moves v) (on_recv_by_addr e bs peer v) (λ _. pure tt)
                (on_recv_by_addr-Safe e v bs peer s.sound) (λ o x y. y.0) in
            subst (Hosting e Kind w) (sym (server_recv_linux-on_recv_by_addr e w bs peer r)) (
              Hosting-after e Kind w v _ h'
                (elim (Option-cases (lookup (make_unique_id peer) w.server.clients)) [
                  | inl n ↦
                      on_recv_by_addr-Hosting e quiet fits on Kind v bs peer s (k w.log bs peer r)
                        safe n
                  | inr (q, entry) ↦ Serves-Hosting e Kind v _ safe (
                      subst (λ z. Serves e (Entry v) Kind v (chain z (λ _. pure tt)))
                        (sym (on_recv_by_addr-known e v bs peer q entry))
                        (recv_at-Serves e quiet fits on (Entry v) Kind v bs q
                          (make_unique_id peer, entry) s.service))
                ]))
      ]

  unit_recv_linux-Hosting :
      (w : World) (u : UnitRef)
      → IsOne (Entry w) u
      → Welcomes e Kind w.server
      → Hosts e Kind w
      → Hosting e Kind w (unit_recv_linux e u w)
  unit_recv_linux-Hosting w u (inl is_server) k h =
      subst (λ x. Hosting e Kind w (unit_recv_linux e x w)) (sym is_server)
        (unfold unit_recv_linux in server_recv_linux-Hosting w k h)
  unit_recv_linux-Hosting w u (inr (q, is_q, (id, entry))) k h =
      let (c, found, _) = lookup-Entries w.heap w.server.clients id q h.sound.entries entry in
      subst (λ x. Hosting e Kind w (unit_recv_linux e x w)) (sym is_q)
        (Serves-Hosting e Kind w (unit_recv_linux e (client q) w)
          (unit_recv_linux-Safe e w (client q) h.sound (c, found))
          (unfold unit_recv_linux in
            at_client-Serves e (Entry w) Kind quiet fits on w q none (id, entry) h.service))

  recv_each-Hosting :
      (w : World) (us : List UnitRef)
      → AllFrom (Entry w) us
      → Welcomes e Kind w.server
      → Hosts e Kind w
      → Hosting e Kind w (recv_each e us w)
  recv_each-Hosting w [] rest k h = inl (logged-Hosted w w h (refl, λ x. x))
  recv_each-Hosting w (u ∷ us) (one, rest) k h =
      Hosting-then e Kind w (unit_recv_linux e u w) (λ _. recv_each e us)
        (unit_recv_linux-Hosting w u one k h)
        (λ v got y.
          recv_each-Hosting v us
            (AllFrom-more (Entry w) (Entry v) us (λ q (id, x). (id, y.evolves.keeps id q x)) rest)
            (Welcomes-Steady w.server v.server y.evolves.steady k) (Hosted-Hosts e Kind w v y))

  poll_linux-Hosting :
      (w : World)
      → ((rs : List Ready)
          → e.os.wait w.log w.server.dispatch max_req_per_time ≡ some rs
          → OnlyFrom (Entry w) rs)
      → Welcomes e Kind w.server
      → Hosts e Kind w
      → Hosting e Kind w (poll_linux e w)
  poll_linux-Hosting w shows k h =
      let v : World = record w { log = waited w.server.dispatch max_req_per_time ∷ w.log } in
      let h' : Hosted e Kind w v = logged-Hosted w v h (refl, λ x. x) in
      rw (poll_linux-recv_each e w) (
        Hosting-after e Kind w v _ h' (
          recv_each-Hosting v
            (heard (reported (e.os.wait w.log w.server.dispatch max_req_per_time)))
            (reported-AllFrom (Entry w) (e.os.wait w.log w.server.dispatch max_req_per_time) shows)
            k (Hosted-Hosts e Kind w v h')))

  server_update-Hosting :
      (w : World) (dlt : ℕ)
      → e.build.is_linux ≡ true
      → ((v : World) (rs : List Ready)
          → update_client e dlt w.server.clients w ≡ ok (tt, v)
          → e.os.wait v.log v.server.dispatch max_req_per_time ≡ some rs
          → OnlyFrom (Entry v) rs)
      → Welcomes e Kind w.server
      → Hosts e Kind w
      → Hosting e Kind w (server_update e dlt w)
  server_update-Hosting w dlt lin shows k h =
      let ((u, v), got, logged) =
        Returns-ok (λ (r : Unit {0} × World). LogOnly Kind w r.1) _
          (update_client-Returns e Kind dlt w w.server.clients h.sound.entries) in
      let h' : Hosted e Kind w v = logged-Hosted w v h logged in
      subst (λ r. Hosting e Kind w r) (sym (server_update-linux e w dlt lin))
        (rw got (
          Hosting-after e Kind w v (poll_linux e v) h' (
            poll_linux-Hosting v (λ rs. shows v rs got)
              (Welcomes-Steady w.server v.server h'.evolves.steady k)
              (Hosted-Hosts e Kind w v h'))))

  pub serve-Hosting :
      (w : World) (ts : List TimeOfDay)
      → e.build.is_linux ≡ true
      → Follows e w ts
      → Welcomes e Kind w.server
      → Hosts e Kind w
      → Hosting e Kind w (serve e ts w)
  unfolding serve get
  serve-Hosting w [] lin f k h = inl (logged-Hosted w w h (refl, λ x. x))
  serve-Hosting w (t ∷ ts) lin (shows, f) k h = elim (Bool-cases w.server.running) [
    | inl runs ↦ simp runs (
        Hosting-then e Kind w (server_update e (iclock t) w) (λ _. serve e ts)
          (server_update-Hosting w (iclock t) lin shows k h)
          (λ v got y.
            serve-Hosting v ts lin (f v got) (Welcomes-Steady w.server v.server y.evolves.steady k)
              (Hosted-Hosts e Kind w v y)))
    | inr stops ↦ simp stops (inl (logged-Hosted w w h (refl, λ x. x)))
  ]
