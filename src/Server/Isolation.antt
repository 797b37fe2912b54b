-- ===== src/Server/Isolation.antt =====
-- A datagram of one peer leaves the clients of the others alone.
use udp_kcp_plugin.Base.{
  ℕ, ◌≡◌, ◌≢◌, refl, ap, ◌∙◌, Option, none, some, ◌∷◌, not, is_set, inl, inr, arith,
}
use udp_kcp_plugin.Base.Assoc.{lookup, lookup-Below}
use udp_kcp_plugin.Base.Outcome.{Prog, pure, ◌>>=◌}
use udp_kcp_plugin.Base.Tame.{Safe, Safe-chain, Safe-if, Safe-test, Safe-mono}
use udp_kcp_plugin.System.{
  Bytes, Addr, Log, Env, Handle, connected, bound, made_nonblocking, made_reusable, opened,
}
use udp_kcp_plugin.Address.{make_unique_id}
use udp_kcp_plugin.Socket.{prepare, open_udp, any_addr}
use udp_kcp_plugin.Client.{
  Client, new_client, set_some_info_by_addr, accepted, set_client_type, client_recv,
}
use udp_kcp_plugin.Client.Members.{SameUnit}
use udp_kcp_plugin.Client.Tame.{client_recv-Safe}
use udp_kcp_plugin.Server.{World, at_client, attach_net_client}
use udp_kcp_plugin.Server.Peers.{
  give_up, adopt, connect_new_client, new_net_client, recv_at, recv_at_new, on_recv_by_addr,
}
use udp_kcp_plugin.Server.Sound.{IsSound, lookup-Entries}
use udp_kcp_plugin.Server.Changes.{allocated, entered}
use udp_kcp_plugin.Server.Attach.{AttachPost, attach_net_client-Safe}
use udp_kcp_plugin.Server.Apart.{
  Apart, Apart-trans, SameStore-Apart, Beside, Leaves, Answers, at_client-Apart, give_up-Apart,
  entered-Apart, allocated-Apart,
}

module _ (e : Env) (id q : ℕ) where
  adopt-Apart :
      (w : World) (raddr : Addr) (fd : Handle)
      → make_unique_id raddr ≡ id
      → w.next ≢ q
      → Safe (Answers e id q w) (adopt e raddr fd w)
  unfolding adopt
  adopt-Apart w raddr fd same_id n =
      let c = new_client raddr fd in
      let a = allocated w c in
      let mine : lookup w.next a.heap ≡ some c = unfold lookup in ground arith in
      let first = allocated-Apart e id q w c n in
      Safe-chain (AttachPost a w.next c) (Answers e id q w) (attach_net_client e w.next a) _
        (attach_net_client-Safe e a w.next c mine)
        λ attached v k.
          Safe-test (Answers e id q w) attached _ _ v
            (λ t. elim k [
              | inl (f, _) ↦ absurd (cc)
              | inr (_, _, same) ↦
                  let id_of : c.big_id ≡ id = unfold new_client set_some_info_by_addr in same_id in
                  let there = entered a c.big_id w.next in
                  let now =
                    Apart-trans id q w there v
                      (Apart-trans id q w a there first
                        (entered-Apart e id q a c.big_id w.next id_of))
                      (SameStore-Apart id q there v same) in
                  Safe-chain
                    (λ r. Leaves e id q v r × ((c' : Client) × (lookup w.next r.1.heap ≡ some c')))
                    (Answers e id q w)
                    (at_client w.next (λ c'. pure (set_client_type c' accepted)) v)
                    (λ _. pure (some w.next))
                    (at_client-Apart e id q v w.next c (λ c'. pure (set_client_type c' accepted))
                      (ap (lookup w.next) same.same_heap ∙ mine) n tt)
                    λ _ x (k', found). (Apart-trans id q w v x now k', (n, found))
            ])
            (λ f. elim k [
              | inl (_, same) ↦
                  Safe-mono (Answers e id q v) (Answers e id q w) (give_up e fd (some w.next) v)
                    (give_up-Apart e id q v fd w.next c (ap (lookup w.next) same.same_heap ∙ mine)
                      n)
                    λ r k'. (
                      Apart-trans id q w v r.1
                          (Apart-trans id q w a v first (SameStore-Apart id q a v same)) k'.0,
                      k'.1,
                    )
              | inr (t, _, _) ↦ absurd (cc)
            ])

  connect_new_client-Apart :
      (w : World) (raddr : Addr) (fd : Handle)
      → make_unique_id raddr ≡ id
      → w.next ≢ q
      → Safe (Answers e id q w) (connect_new_client e raddr fd w)
  unfolding connect_new_client give_up
  connect_new_client-Apart w raddr fd same_id n =
      let v : World = record w { log = connected fd raddr (e.os.connect w.log fd raddr) ∷ w.log } in
      Safe-if (Answers e id q w) (e.os.connect w.log fd raddr) (adopt e raddr fd)
        (give_up e fd none) v
        (Safe-mono (Answers e id q v) (Answers e id q w) (adopt e raddr fd v)
          (adopt-Apart v raddr fd same_id n)
          λ r k. (record { same_object = k.0.same_object; same_entries = k.0.same_entries }, k.1))
        (record { same_object = λ d g. g; same_entries = λ j x. refl }, tt)

  new_net_client-Apart :
      (w : World) (raddr : Addr)
      → make_unique_id raddr ≡ id
      → w.next ≢ q
      → Safe (Answers e id q w) (new_net_client e raddr w)
  unfolding new_net_client open_udp prepare
  new_net_client-Apart w raddr same_id n =
      let fd = e.os.open_socket w.log in
      let l = made_nonblocking fd ∷ made_reusable fd ∷ opened fd ∷ w.log in
      let b = e.os.bind l fd (any_addr w.server.port) in
      let v : World = record w { log = bound fd (any_addr w.server.port) b ∷ l } in
      let quiet : Answers e id q w (none, v) =
        (record { same_object = λ d g. g; same_entries = λ j x. refl }, tt) in
      Safe-if (Answers e id q w) (not b) _ _ v quiet (
        Safe-if (Answers e id q w) (not (is_set fd)) _ _ v quiet (
          Safe-mono (Answers e id q v) (Answers e id q w) (connect_new_client e raddr fd v)
            (connect_new_client-Apart v raddr fd same_id n)
            λ r k.
              (record { same_object = k.0.same_object; same_entries = k.0.same_entries }, k.1)))

  recv_at-Apart :
      (w : World) (bs : Bytes) (p : ℕ) (c : Client)
      → lookup p w.heap ≡ some c
      → p ≢ q
      → Safe (Answers e id q w) (recv_at e bs p w)
  unfolding recv_at
  recv_at-Apart w bs p c h n =
      Safe-chain (λ r. Leaves e id q w r × ((c' : Client) × (lookup p r.1.heap ≡ some c')))
        (Answers e id q w) (at_client p (λ c'. client_recv e c' (some bs)) w) (λ _. pure (some p))
        (at_client-Apart e id q w p c (λ c'. client_recv e c' (some bs)) h n
          (Safe-mono (λ (r : Client × Log). SameUnit c r.0) (λ r. Unit {0}) _
            (client_recv-Safe e c (some bs) w.log) λ r u. tt))
        λ _ v (k, found). (k, (n, found))

  recv_at_new-Apart :
      (w : World) (bs : Bytes) (o : Option ℕ)
      → Beside q w o
      → Safe (Answers e id q w) (recv_at_new e bs o w)
  unfolding recv_at_new
  recv_at_new-Apart w bs none h =
      (record { same_object = λ d g. g; same_entries = λ j x. refl }, tt)
  recv_at_new-Apart w bs (some p) (n, (c, h)) = recv_at-Apart w bs p c h n

module _ (e : Env) where
  -- For any address but that of the peer's client and the next one, in use or not.
  pub on_recv_by_addr-Apart_at :
      (w : World) (bs : Bytes) (addr : Addr) (q : ℕ)
      → IsSound w
      → w.next ≢ q
      → lookup (make_unique_id addr) w.server.clients ≢ some q
      → Safe (λ r. Apart (make_unique_id addr) q w r.1) (on_recv_by_addr e bs addr w)
  unfolding on_recv_by_addr
  on_recv_by_addr-Apart_at w bs addr q s ahead other =
      Safe-mono (Answers e id q w) _ (on_recv_by_addr e bs addr w)
        (dispatch (lookup id w.server.clients) refl) λ r k. k.0
    where
      id : ℕ
      id = make_unique_id addr

      dispatch :
          (o : Option ℕ)
          → lookup id w.server.clients ≡ o
          → Safe (Answers e id q w) (
              (elim o as (λ _. Prog World (Option ℕ)) [
                | some p ↦ recv_at e bs p
                | none ↦ new_net_client e addr >>= recv_at_new e bs
              ])
                w)
      dispatch none g =
          Safe-chain (Answers e id q w) (Answers e id q w) (new_net_client e addr w)
            (recv_at_new e bs) (new_net_client-Apart e id q w addr refl ahead)
            λ o v k.
              Safe-mono (Answers e id q v) (Answers e id q w) _
                (recv_at_new-Apart e id q v bs o k.1)
                λ r k'. (Apart-trans id q w v r.1 k.0 k'.0, k'.1)
      dispatch (some p) g =
          let (c, live, _) = lookup-Entries w.heap w.server.clients id p s.entries g in
          recv_at-Apart e id q w bs p c live (λ x. other (g ∙ ap some x))

  -- From a state in which the client map and the heap agree, and for a client that is not the one of the
  -- peer's identity: handling a datagram of the peer is not ended by the use of an object that is not
  -- allocated, and where it returns, that client's object is as it was, to the last member, and so is
  -- the map's entry of every identity but the peer's.
  pub on_recv_by_addr-Apart :
      (w : World) (bs : Bytes) (addr : Addr) (q : ℕ) (d : Client)
      → IsSound w
      → lookup q w.heap ≡ some d
      → lookup (make_unique_id addr) w.server.clients ≢ some q
      → Safe (λ r. Apart (make_unique_id addr) q w r.1) (on_recv_by_addr e bs addr w)
  on_recv_by_addr-Apart w bs addr q d s h other =
      on_recv_by_addr-Apart_at w bs addr q s
        (λ x. omega (arith, lookup-Below w.next q d w.heap s.fresh h, x)) other
