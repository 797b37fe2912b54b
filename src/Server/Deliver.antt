-- ===== src/Server/Deliver.antt =====
-- A datagram for the server: `OnRecvByAddr`, over the server's invariant.
use udp_kcp_plugin.Base.{ℕ, ◌≡◌, refl, Option, none, some}
use udp_kcp_plugin.Base.Assoc.{lookup}
use udp_kcp_plugin.Base.Outcome.{Prog, pure, ◌>>=◌}
use udp_kcp_plugin.Base.Tame.{Safe, Safe-chain, Safe-mono}
use udp_kcp_plugin.System.{Bytes, Addr, Env}
use udp_kcp_plugin.Address.{make_unique_id}
use udp_kcp_plugin.Client.{Client, client_recv}
use udp_kcp_plugin.Server.{World, at_client}
use udp_kcp_plugin.Server.Peers.{new_net_client, recv_at, recv_at_new, on_recv_by_addr}
use udp_kcp_plugin.Server.View.{client_recv-Proceeds}
use udp_kcp_plugin.Server.Sound.{SameStore-log, IsSound, Evolves, Evolves-trans, lookup-Entries}
use udp_kcp_plugin.Server.Admit.{
  Found, Admits, unchanged-Admits, at_client-Safe, new_net_client-Safe,
}

module _ (e : Env) where
  recv_at-Safe :
      (w : World) (bs : Bytes) (p : ℕ) (c : Client)
      → IsSound w
      → lookup p w.heap ≡ some c
      → Safe (Admits w) (recv_at e bs p w)
  unfolding recv_at
  recv_at-Safe w bs p c s h =
      Safe-chain (λ (r : Unit {0} × World). Evolves w r.1) (Admits w)
        (at_client p (λ c'. client_recv e c' (some bs)) w) (λ _. pure (some p))
        (at_client-Safe e w p c (λ c'. client_recv e c' (some bs)) s h
          (client_recv-Proceeds e c (some bs) w.log))
        λ _ v k. let (c', e', _) = k.stays p c h in (k, (c', e'))

  recv_at_new-Safe :
      (w : World) (bs : Bytes) (o : Option ℕ)
      → IsSound w
      → Found w o
      → Safe (Admits w) (recv_at_new e bs o w)
  unfolding recv_at_new
  recv_at_new-Safe w bs none s h = unchanged-Admits e w w s (SameStore-log w w.log)
  recv_at_new-Safe w bs (some p) s (c, h) = recv_at-Safe w bs p c s h

  -- From a state in which the client map and the heap agree: handling a datagram of any peer is not
  -- ended by the use of an object that is not allocated; where it returns, the map and the heap agree
  -- again, every object and every entry that was there is still there, the client that is returned,
  -- if there is one, is allocated, and if every allocated client was the entry of its identity, every
  -- one is.
  pub on_recv_by_addr-Safe :
      (w : World) (bs : Bytes) (addr : Addr)
      → IsSound w
      → Safe (Admits w) (on_recv_by_addr e bs addr w)
  unfolding on_recv_by_addr
  on_recv_by_addr-Safe w bs addr s = dispatch (lookup (make_unique_id addr) w.server.clients) refl
    where
      dispatch :
          (o : Option ℕ)
          → lookup (make_unique_id addr) w.server.clients ≡ o
          → Safe (Admits w) (
              (elim o as (λ _. Prog World (Option ℕ)) [
                | some p ↦ recv_at e bs p
                | none ↦ new_net_client e addr >>= recv_at_new e bs
              ])
                w)
      dispatch none h =
          Safe-chain (Admits w) (Admits w) (new_net_client e addr w) (recv_at_new e bs)
            (new_net_client-Safe e w addr s)
            λ o v k.
              Safe-mono (Admits v) (Admits w) _ (recv_at_new-Safe v bs o k.0.sound k.1)
                λ r k'. (Evolves-trans w v r.1 k.0 k'.0, k'.1)
      dispatch (some p) h =
          let (c, live, _) =
            lookup-Entries w.heap w.server.clients (make_unique_id addr) p s.entries h in
          recv_at-Safe w bs p c s live
