-- ===== src/Server/Loop.antt =====
-- A round of the server's loop on Linux keeps the invariant and follows no dangling pointer.
use udp_kcp_plugin.Base.{ℕ, ◌≡◌, refl, true, Option, none, some, List, [], ◌∷◌, map, ◌==◌}
use udp_kcp_plugin.Base.Outcome.{ok, Prog, pure, ◌>>=◌, chain}
use udp_kcp_plugin.Base.Tame.{Safe, Safe-chain, Safe-chain_eq, Safe-if, Safe-test, Safe-mono}
use udp_kcp_plugin.System.{
  Bytes, Addr, Log, Env, UnitRef, server, client, Ready, waited, received_from,
}
use udp_kcp_plugin.Client.{client_recv, update as client_update}
use udp_kcp_plugin.Client.Tame.{update-Tame}
use udp_kcp_plugin.Dispatch.{NetEventInfo, translate, dispatch_update, ene_read, max_req_per_time}
use udp_kcp_plugin.Server.{World, lift}
use udp_kcp_plugin.Server.Peers.{on_recv_by_addr, server_recv_linux}
use udp_kcp_plugin.Server.Run.{
  update_client, unit_recv_linux, handle_event_linux, handle_all_linux, poll_linux, server_update,
}
use udp_kcp_plugin.Server.View.{client_recv-Proceeds}
use udp_kcp_plugin.Server.Sound.{
  SameStore-log, Entries, IsSound, Evolves, Evolves-trans, SameStore, SameStore-Evolves, Safe-lift,
  Safe-load,
}
use udp_kcp_plugin.Server.Attach.{IsLive, SameStore-trans}
use udp_kcp_plugin.Server.Admit.{Admits, at_client-Safe}
use udp_kcp_plugin.Server.Deliver.{on_recv_by_addr-Safe}

-- Every unit that is reported has its object.
abbrev pub AllReady : World → List Ready → Type 0
AllReady w [] = Unit {0}
AllReady w (r ∷ rs) = IsLive w r.userdata × AllReady w rs

abbrev AllLive : World → List NetEventInfo → Type 0
AllLive w [] = Unit {0}
AllLive w (ev ∷ evs) = IsLive w ev.userdata × AllLive w evs

abbrev pub Moves : World → Unit {0} × World → Type 0
Moves w r = Evolves w r.1

pub IsLive-Evolves : (w v : World) (u : UnitRef) → Evolves w v → IsLive w u → IsLive v u
IsLive-Evolves w v server h k = tt
IsLive-Evolves w v (client p) h (c, e) = let (c', e', _) = h.stays p c e in (c', e')

AllLive-Evolves :
    (w v : World) (evs : List NetEventInfo) → Evolves w v → AllLive w evs → AllLive v evs
AllLive-Evolves w v [] h k = tt
AllLive-Evolves w v (ev ∷ evs) h (l, ls) =
    (IsLive-Evolves w v ev.userdata h l, AllLive-Evolves w v evs h ls)

AllLive-translate : (w : World) (rs : List Ready) → AllReady w rs → AllLive w (map translate rs)
unfolding translate
AllLive-translate w [] h = tt
AllLive-translate w (r ∷ rs) (h, hs) = (h, AllLive-translate w rs hs)

Evolves-refl : (w : World) → IsSound w → Evolves w w
Evolves-refl w s = SameStore-Evolves w w s (SameStore-log w w.log)

AllReady-SameStore : (w v : World) (rs : List Ready) → SameStore w v → AllReady w rs → AllReady v rs
AllReady-SameStore w v [] h k = tt
AllReady-SameStore w v (r ∷ rs) h (l, ls) =
    (IsLive-SameStore r.userdata l, AllReady-SameStore w v rs h ls)
  where
    IsLive-SameStore : (u : UnitRef) → IsLive w u → IsLive v u
    IsLive-SameStore server x = tt
    IsLive-SameStore (client p) (c, x) = (c, rw h.same_heap x)

-- What `epoll_wait` reports in the round: only units that then have their objects.
abbrev pub Awaits : Env → World → ℕ → Type 0
Awaits e w dlt =
    (v : World) (rs : List Ready)
    → update_client e dlt w.server.clients w ≡ ok (tt, v)
    → e.os.wait v.log v.server.dispatch max_req_per_time ≡ some rs
    → AllReady v rs

module _ (e : Env) where
  server_recv_linux-Safe : (w : World) → IsSound w → Safe (Moves w) (server_recv_linux e w)
  unfolding server_recv_linux
  server_recv_linux-Safe w s = answer (e.os.recv_from w.log w.server.sock 512)
    where
      answer :
          (got : Option (Bytes × Addr))
          → Safe (Moves w) (
              (elim got as (λ _. Prog World (Unit {0})) [
                | none ↦ pure tt
                | some (bs, addr) ↦ (do _ ← on_recv_by_addr e bs addr; pure tt)
              ])
                (record w { log = received_from w.server.sock got ∷ w.log }))
      answer none =
          SameStore-Evolves w _ s (SameStore-log w (received_from w.server.sock none ∷ w.log))
      answer (some (bs, addr)) =
          let v : World = record w {
            log = received_from w.server.sock (some (bs, addr)) ∷ w.log;
          } in
          let here = SameStore-Evolves w v s (SameStore-log w v.log) in
          Safe-chain (Admits v) (Moves w) (on_recv_by_addr e bs addr v) (λ _. pure tt)
            (on_recv_by_addr-Safe e v bs addr here.sound) λ o x k. Evolves-trans w v x here k.0

  pub unit_recv_linux-Safe :
      (w : World) (u : UnitRef) → IsSound w → IsLive w u → Safe (Moves w) (unit_recv_linux e u w)
  unfolding unit_recv_linux
  unit_recv_linux-Safe w server s h = server_recv_linux-Safe w s
  unit_recv_linux-Safe w (client p) s (c, h) =
      at_client-Safe e w p c (λ c'. client_recv e c' none) s h (client_recv-Proceeds e c none w.log)

  handle_all_linux-Safe :
      (w : World) (evs : List NetEventInfo)
      → IsSound w
      → AllLive w evs
      → Safe (Moves w) (handle_all_linux e evs w)
  unfolding handle_all_linux
  handle_all_linux-Safe w [] s h = Evolves-refl w s
  handle_all_linux-Safe w (ev ∷ evs) s (h, hs) =
      Safe-chain (Moves w) (Moves w) (handle_event_linux e ev w) (λ _. handle_all_linux e evs)
        (unfold handle_event_linux in
          Safe-if (Moves w) (ev.evt == ene_read) (unit_recv_linux e ev.userdata) (pure tt) w
            (unit_recv_linux-Safe w ev.userdata s h) (Evolves-refl w s))
        λ _ v k.
          Safe-mono (Moves v) (Moves w) _
            (handle_all_linux-Safe v evs k.sound (AllLive-Evolves w v evs k hs))
            λ r k'. Evolves-trans w v r.1 k k'

  pub update_client-Safe :
      (dlt : ℕ) (w : World) (m : List (ℕ × ℕ))
      → Entries w.heap m
      → Safe (λ (r : Unit {0} × World). SameStore w r.1) (update_client e dlt m w)
  unfolding update_client
  update_client-Safe dlt w [] h = SameStore-log w w.log
  update_client-Safe dlt w ((id, p) ∷ m) ((c, live, _), hs) =
      Safe-load (λ (r : Unit {0} × World). SameStore w r.1) w p c _ live
        (Safe-chain (λ (r : Unit {0} × World). SameStore w r.1)
          (λ (r : Unit {0} × World). SameStore w r.1) (lift (client_update e c dlt) w)
          (λ _. update_client e dlt m) (Safe-lift (client_update e c dlt) w (update-Tame e c dlt))
          λ _ v k.
            Safe-mono (λ (r : Unit {0} × World). SameStore v r.1)
              (λ (r : Unit {0} × World). SameStore w r.1) _
              (update_client-Safe dlt v m (rw k.same_heap hs)) λ r k'. SameStore-trans w v r.1 k k')

  poll_linux-Safe :
      (w : World)
      → IsSound w
      → ((rs : List Ready)
          → e.os.wait w.log w.server.dispatch max_req_per_time ≡ some rs
          → AllReady w rs)
      → Safe (Moves w) (poll_linux e w)
  unfolding poll_linux dispatch_update
  poll_linux-Safe w s h = answer (e.os.wait w.log w.server.dispatch max_req_per_time) h
    where
      v : World
      v = record w { log = waited w.server.dispatch max_req_per_time ∷ w.log }

      same : SameStore w v
      same = SameStore-log w v.log

      answer :
          (got : Option (List Ready))
          → ((rs : List Ready) → got ≡ some rs → AllReady w rs)
          → Safe (Moves w) (
              chain
                (lift
                  ((elim got as (λ _. Prog Log (List NetEventInfo)) [
                    | none ↦ pure []
                    | some ready ↦ pure (map translate ready)
                  ]))
                  v)
                (handle_all_linux e))
      answer none k = SameStore-Evolves w v s same
      answer (some rs) k =
          let here = SameStore-Evolves w v s same in
          Safe-mono (Moves v) (Moves w) (handle_all_linux e (map translate rs) v)
            (handle_all_linux-Safe v (map translate rs) here.sound
              (AllLive-translate v rs (AllReady-SameStore w v rs same (k rs refl))))
            λ r k'. Evolves-trans w v r.1 here k'

  -- On Linux, from a state in which the client map and the heap agree, and where `epoll_wait`, when
  -- the round calls it, reports only units that then have their objects: a round of `Update` is never ended by the use of an object
  -- that is not allocated, and where it returns, the map and the heap agree again, every object is
  -- still allocated under its identity, every identity has the client that it had, the server's
  -- socket, dispatcher, port and running flag are as they were, and if every allocated client was the
  -- entry of its identity, every one is.
  pub server_update-Safe :
      (w : World) (dlt : ℕ)
      → e.build.is_linux ≡ true
      → IsSound w
      → Awaits e w dlt
      → Safe (Moves w) (server_update e dlt w)
  unfolding server_update
  server_update-Safe w dlt on s reports =
      Safe-chain_eq (λ (r : Unit {0} × World). SameStore w r.1) (Moves w)
        (update_client e dlt w.server.clients w) _
        (update_client-Safe dlt w w.server.clients s.entries)
        λ _ v got k.
          let here = SameStore-Evolves w v s k in
          Safe-test (Moves w) e.build.is_linux (poll_linux e) _ v
            (λ _.
              Safe-mono (Moves v) (Moves w) (poll_linux e v)
                (poll_linux-Safe v here.sound λ rs h. reports v rs got h)
                λ r k'. Evolves-trans w v r.1 here k')
            (λ off. absurd (cc))
