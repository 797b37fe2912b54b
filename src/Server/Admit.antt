-- ===== src/Server/Admit.antt =====
-- A new peer keeps the invariant: `NewNetClient`, with all of its failures.
use udp_kcp_plugin.Base.{
  ℕ, suc, ◌≡◌, refl, fun_ext, ◌∙◌, ap, is_set, not, Option, none, some, ◌∷◌, inl, inr, arith,
}
use udp_kcp_plugin.Base.Assoc.{lookup, erase, lookup-erase, Below-erase, Below-mono, lookup-Below}
use udp_kcp_plugin.Base.Outcome.{Prog, pure}
use udp_kcp_plugin.Base.Tame.{Safe, Safe-chain, Safe-if, Safe-test, Safe-mono}
use udp_kcp_plugin.System.{
  Addr, Log, closed, connected, made_nonblocking, made_reusable, opened, bound, Env, Handle,
}
use udp_kcp_plugin.Client.{
  Client, accepted, set_client_type, new_client, fresh_client, set_some_info_by_addr, destroy,
}
use udp_kcp_plugin.Client.Tame.{destroy-Tame}
use udp_kcp_plugin.Server.{World, lift, at_client, delete_client, attach_net_client}
use udp_kcp_plugin.Socket.{prepare, open_udp, any_addr}
use udp_kcp_plugin.Server.Peers.{give_up, adopt, connect_new_client, new_net_client}
use udp_kcp_plugin.Server.Sound.{
  SameStore-log, Owned, IsSound, Evolves, Evolves-trans, SameStore, SameStore-Evolves, Safe-lift,
  Safe-lift_post, Safe-load, Entries-map,
}
use udp_kcp_plugin.Directory.Laws.{Steps-eq}
use udp_kcp_plugin.Server.View.{Proceeds, view, sessions}
use udp_kcp_plugin.Server.ViewSteps.{IsBlank, agree-session_at}
use udp_kcp_plugin.Server.Changes.{
  stored, stored-Evolves, allocated, dropped, admitted, admitted-Evolves,
}
use udp_kcp_plugin.Server.Attach.{SameStore-trans, AttachPost, attach_net_client-Safe}

new_client-IsBlank : (a : Addr) (fd : Handle) → IsBlank (new_client a fd)
unfolding new_client set_some_info_by_addr fresh_client
new_client-IsBlank a fd = record { own_id = refl; no_type = refl; no_conv = refl }

-- A fresh object that was deleted again.
dropped-Evolves :
    (w v : World) (c : Client)
    → IsSound w
    → SameStore (allocated w c) v
    → Evolves w (dropped v w.next)
unfolding lookup erase
dropped-Evolves w v c s h = record {
  sound = record {
    fresh =
        rw (h.same_heap, h.same_next)
          (Below-erase (suc w.next) w.next ((w.next, c) ∷ w.heap)
            (omega arith, Below-mono w.next (suc w.next) w.heap (omega arith) s.fresh));
    entries =
        rw h.same_server
          (Entries-map w.heap (erase w.next v.heap) w.server.clients stays s.entries);
    distinct = rw h.same_server s.distinct;
  };
  stays = stays;
  keeps = λ id q r. rw h.same_server r;
  more = h.grown;
  steady = rw h.same_server (refl, refl, refl, refl);
  owned = owned;
  steps = rw h.same_server (
      Steps-eq (view w) (sessions (erase w.next v.heap) w.server.clients) (
        fun_ext
          λ k. agree-session_at w.heap (erase w.next v.heap) w.server.clients k s.entries again));
}
  where
    stays :
        (q : ℕ) (d : Client)
        → lookup q w.heap ≡ some d
        → (d' : Client) × (lookup q (erase w.next v.heap) ≡ some d') × (d'.big_id ≡ d.big_id)
    stays q d r = (
      d,
      rw h.same_heap (
          ground (
            arith,
            lookup-erase w.next q ((w.next, c) ∷ w.heap),
            lookup-Below w.next q d w.heap s.fresh r,
          )),
      refl,
    )

    again :
        (q : ℕ) (d : Client) → lookup q w.heap ≡ some d → lookup q (erase w.next v.heap) ≡ some d
    again q d r = rw h.same_heap (
        ground (
          arith,
          lookup-erase w.next q ((w.next, c) ∷ w.heap),
          lookup-Below w.next q d w.heap s.fresh r,
        ))

    owned : Owned w.heap w.server.clients → Owned (erase w.next v.heap) v.server.clients
    owned o q d r =
        rw h.same_server (o q d (ground (arith, lookup-erase w.next q v.heap, h.same_heap)))

-- A unit, if there is one, has its object.
abbrev pub Found : World → Option ℕ → Type 0
Found w none = Unit {0}
Found w (some p) = (c : Client) × (lookup p w.heap ≡ some c)

abbrev pub Admits : World → Option ℕ × World → Type 0
Admits w r = Evolves w r.1 × Found r.1 r.0

module _ (e : Env) where
  delete_client-Safe :
      (w u : World) (c : Client)
      → IsSound w
      → SameStore (allocated w c) u
      → Safe (λ (r : Unit {0} × World). Evolves w r.1) (delete_client e w.next u)
  unfolding delete_client
  delete_client-Safe w u c s h =
      Safe-load (λ (r : Unit {0} × World). Evolves w r.1) u w.next c _
        (ap (lookup w.next) h.same_heap ∙ unfold lookup in ground arith)
        (Safe-chain (λ (r : Unit {0} × World). SameStore u r.1)
          (λ (r : Unit {0} × World). Evolves w r.1) (lift (destroy e c) u) _
          (Safe-lift (destroy e c) u (destroy-Tame e c))
          λ _ v k. dropped-Evolves w v c s (SameStore-trans (allocated w c) u v h k))

  -- A member function of an allocated client that keeps its identity.
  pub at_client-Safe :
      (w : World) (p : ℕ) (c : Client) (m : Client → Prog Log Client)
      → IsSound w
      → lookup p w.heap ≡ some c
      → Safe (λ (r : Client × Log). Proceeds c r.0) (m c w.log)
      → Safe (λ (r : Unit {0} × World). Evolves w r.1) (at_client p m w)
  unfolding at_client
  at_client-Safe w p c m s h k =
      Safe-load (λ (r : Unit {0} × World). Evolves w r.1) w p c _ h
        (Safe-chain (λ (r : Client × World). Proceeds c r.0 × SameStore w r.1)
          (λ (r : Unit {0} × World). Evolves w r.1) (lift (m c) w) _
          (Safe-lift_post (λ (r : Client × Log). Proceeds c r.0) (m c) w k)
          λ c' v t.
            let before = SameStore-Evolves w v s t.1 in
            Evolves-trans w v (stored v p c') before
              (stored-Evolves v p c c' before.sound (rw t.1.same_heap h) t.0))

  give_up-Evolves :
      (w u : World) (c : Client) (fd : Handle)
      → IsSound w
      → SameStore (allocated w c) u
      → Safe (Admits w) (give_up e fd (some w.next) u)
  unfolding give_up
  give_up-Evolves w u c fd s h =
      let v : World = record u { log = closed fd ∷ u.log } in
      Safe-chain (λ (r : Unit {0} × World). Evolves w r.1) (Admits w) (delete_client e w.next v)
        (λ _. pure none)
        (delete_client-Safe w v c s
          (SameStore-trans (allocated w c) u v h (SameStore-log u (closed fd ∷ u.log))))
        λ _ x k'. (k', tt)

  adopt-Safe :
      (w : World) (raddr : Addr) (fd : Handle) → IsSound w → Safe (Admits w) (adopt e raddr fd w)
  unfolding adopt
  adopt-Safe w raddr fd s =
      let c = new_client raddr fd in
      let mine : lookup w.next (allocated w c).heap ≡ some c = unfold lookup in ground arith in
      Safe-chain (AttachPost (allocated w c) w.next c) (Admits w)
        (attach_net_client e w.next (allocated w c)) _
        (attach_net_client-Safe e (allocated w c) w.next c mine)
        λ attached v k.
          Safe-test (Admits w) attached _ _ v
            (λ t. elim k [
              | inl (f, _) ↦ absurd (cc)
              | inr (_, free, same) ↦
                  let there = admitted-Evolves w c s free (new_client-IsBlank raddr fd) in
                  let now =
                    Evolves-trans w (admitted w c) v there
                      (SameStore-Evolves (admitted w c) v there.sound same) in
                  let seen : lookup w.next v.heap ≡ some c =
                    ap (lookup w.next) same.same_heap ∙ mine in
                  Safe-chain (λ (r : Unit {0} × World). Evolves v r.1) (Admits w)
                    (at_client w.next (λ c'. pure (set_client_type c' accepted)) v)
                    (λ _. pure (some w.next))
                    (at_client-Safe v w.next c (λ c'. pure (set_client_type c' accepted)) now.sound
                      seen (typed c (new_client-IsBlank raddr fd).no_type))
                    λ _ x k'.
                      let (c', e', _) = k'.stays w.next c seen in
                      (Evolves-trans w v x now k', (c', e'))
            ])
            (λ f. elim k [
              | inl (_, same) ↦ give_up-Evolves w v c fd s same
              | inr (t, _, _) ↦ absurd (cc)
            ])
    where
      typed : (c : Client) → c.kind ≡ none → Proceeds c (set_client_type c accepted)
      typed c n = unfold set_client_type in (refl, inl (rw n refl))

  pub unchanged-Admits : (w v : World) → IsSound w → SameStore w v → Admits w (none, v)
  unchanged-Admits w v s h = (SameStore-Evolves w v s h, tt)

  connect_new_client-Safe :
      (w : World) (raddr : Addr) (fd : Handle)
      → IsSound w
      → Safe (Admits w) (connect_new_client e raddr fd w)
  unfolding connect_new_client give_up
  connect_new_client-Safe w raddr fd s =
      let l = connected fd raddr (e.os.connect w.log fd raddr) ∷ w.log in
      let v : World = record w { log = l } in
      let same : SameStore w v = SameStore-log w l in
      let here = SameStore-Evolves w v s same in
      Safe-if (Admits w) (e.os.connect w.log fd raddr) (adopt e raddr fd) (give_up e fd none) v
        (Safe-mono (Admits v) (Admits w) _ (adopt-Safe v raddr fd here.sound)
          λ r k. (Evolves-trans w v r.1 here k.0, k.1))
        (unchanged-Admits w _ s (SameStore-log w (closed fd ∷ l)))

  -- On every path a new client is entered whole or not at all, and no other client is touched.
  pub new_net_client-Safe :
      (w : World) (raddr : Addr) → IsSound w → Safe (Admits w) (new_net_client e raddr w)
  unfolding new_net_client open_udp prepare
  new_net_client-Safe w raddr s =
      let fd = e.os.open_socket w.log in
      let l = made_nonblocking fd ∷ made_reusable fd ∷ opened fd ∷ w.log in
      let b = e.os.bind l fd (any_addr w.server.port) in
      let v : World = record w { log = bound fd (any_addr w.server.port) b ∷ l } in
      let same : SameStore w v = SameStore-log w v.log in
      let here = SameStore-Evolves w v s same in
      Safe-if (Admits w) (not b) _ _ v (here, tt)
        (Safe-if (Admits w) (not (is_set fd)) _ _ v (here, tt)
          (Safe-mono (Admits v) (Admits w) (connect_new_client e raddr fd v)
            (connect_new_client-Safe v raddr fd here.sound)
            λ r k. (Evolves-trans w v r.1 here k.0, k.1)))
