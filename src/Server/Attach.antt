-- ===== src/Server/Attach.antt =====
-- Registering a client with the dispatcher and the map: `CtlUDPEvent`, `AttachNetClient` and
-- `delete`, over the server's invariant.
use udp_kcp_plugin.Base.{
  ℕ, ◌≡◌, refl, ap, ◌∷◌, [], ◌++◌, ◌∙◌, Bool, true, false, is_set, not, none, some, ◌⊎◌, inl, inr,
  arith,
}
use udp_kcp_plugin.Base.Assoc.{lookup}
use udp_kcp_plugin.Base.Outcome.{ok}
use udp_kcp_plugin.Base.Tame.{Safe, Safe-chain, Safe-if, Safe-test, Safe-mono, Tame}
use udp_kcp_plugin.System.{Env, UnitRef, server, client, Handle}
use udp_kcp_plugin.Client.{Client}
use udp_kcp_plugin.Dispatch.{
  NetEventOp, add, NetProtocolType, udp, ene_read, ctl_event, attach_handle_to_dispatch,
}
use udp_kcp_plugin.Dispatch.Windows.{Posts, ctl_event_windows}
use udp_kcp_plugin.Server.{Server, World, lift, get_handle, ctl_udp_event, attach_net_client}
use udp_kcp_plugin.Server.Posting.{Grew, ctl_event_windows-Safe}
use udp_kcp_plugin.Server.Sound.{
  SameStore-log, Grows, Grows-trans, SameStore, Safe-lift, Safe-lift_post, Safe-load,
}
use udp_kcp_plugin.Server.Changes.{entered}

SameStore-refl : (w : World) → SameStore w w
SameStore-refl w = SameStore-log w w.log

pub SameStore-trans : (u v w : World) → SameStore u v → SameStore v w → SameStore u w
SameStore-trans u v w h k = record {
  same_heap = k.same_heap ∙ h.same_heap;
  same_next = k.same_next ∙ h.same_next;
  same_server = k.same_server ∙ h.same_server;
  grown = Grows-trans u.posts v.posts w.posts h.grown k.grown;
}

-- A unit whose object is allocated.
abbrev pub IsLive : World → UnitRef → Type 0
IsLive w server = Unit {0}
IsLive w (client p) = (c : Client) × (lookup p w.heap ≡ some c)

-- What `AttachNetClient` comes to: either the map is as it was, or it has one more entry, for an
-- identity that it did not have.
abbrev pub AttachPost : World → ℕ → Client → Bool × World → Type 0
AttachPost w p c r =
    ((r.0 ≡ false) × SameStore w r.1)
    ⊎ ((r.0 ≡ true)
        × (lookup c.big_id w.server.clients ≡ none)
        × SameStore (entered w c.big_id p) r.1)

posted-SameStore :
    (w v t : World) (p : Posts)
    → SameStore w v
    → SameStore v t
    → Grows v.posts p
    → SameStore w (record t { posts = p })
posted-SameStore w v t p h k g = record {
  same_heap = k.same_heap ∙ h.same_heap;
  same_next = k.same_next ∙ h.same_next;
  same_server = k.same_server ∙ h.same_server;
  grown = Grows-trans w.posts v.posts p h.grown g;
}

module _ (e : Env) where
  ctl_event-Tame :
      (d : Handle) (op : NetEventOp) (h : Handle) (ev : ℕ) (u : UnitRef) (t : NetProtocolType)
      → Tame (ctl_event e d op h ev u t)
  unfolding ctl_event
  ctl_event-Tame d op h ev u t l = tt

  pub attach-Tame : (d h : Handle) (u : UnitRef) → Tame (attach_handle_to_dispatch e d h u)
  unfolding attach_handle_to_dispatch
  attach-Tame d h u l = tt

  get_handle-client :
      (w : World) (p : ℕ) (c : Client)
      → lookup p w.heap ≡ some c
      → get_handle e (client p) w ≡ ok (c.sock, w)
  unfolding get_handle
  get_handle-client w p c h = ground arith

  get_handle-Safe :
      (w : World) (u : UnitRef)
      → IsLive w u
      → Safe (λ (r : Handle × World). SameStore w r.1) (get_handle e u w)
  unfolding get_handle
  get_handle-Safe w server h = SameStore-refl w
  get_handle-Safe w (client p) (c, h) = rw (get_handle-client w p c h) (SameStore-refl w)

  pub ctl_udp_event-Safe :
      (w : World) (op : NetEventOp) (ev : ℕ) (u : UnitRef)
      → IsLive w u
      → Safe (λ (r : Bool × World). SameStore w r.1) (ctl_udp_event e op ev u w)
  unfolding ctl_udp_event
  ctl_udp_event-Safe w op ev u h =
      Safe-chain (λ (r : Handle × World). SameStore w r.1) (λ (r : Bool × World). SameStore w r.1)
        (get_handle e u w) _ (get_handle-Safe w u h)
        λ sock v k.
          Safe-if (λ (r : Bool × World). SameStore w r.1) e.build.is_linux _ _ v
            (Safe-mono (λ (r : Bool × World). SameStore v r.1)
              (λ (r : Bool × World). SameStore w r.1)
              (lift (ctl_event e v.server.dispatch op sock ene_read u udp) v)
              (Safe-lift _ v (ctl_event-Tame v.server.dispatch op sock ene_read u udp))
              (λ r. SameStore-trans w v r.1 k))
            (Safe-chain (λ (r : (Posts × Bool) × World). Grows v.posts r.0.0 × SameStore v r.1)
              (λ (r : Bool × World). SameStore w r.1)
              (lift (ctl_event_windows e op sock ene_read u udp v.posts) v) _
              (Safe-lift_post (Grew v.posts) (ctl_event_windows e op sock ene_read u udp v.posts) v
                (ctl_event_windows-Safe e op sock ene_read u udp v.posts v.log))
              (λ r t k'. posted-SameStore w v t r.0 k k'.1 k'.0))

  entered-SameStore :
      (w v : World) (id p : ℕ) → SameStore w v → SameStore (entered w id p) (entered v id p)
  entered-SameStore w v id p h = record {
    same_heap = h.same_heap;
    same_next = h.same_next;
    same_server =
        ap (λ (z : Server). record z { clients = z.clients ++ ((id, p) ∷ []) }) h.same_server;
    grown = h.grown;
  }

  -- For a client that is allocated: `AttachNetClient` is not ended by the use of an object that is not
  -- allocated, and where it returns, either it fails and the map and the objects are as they were, or
  -- it succeeds, the client's identity had no entry, and the map has one more, from it to the client.
  pub attach_net_client-Safe :
      (w : World) (p : ℕ) (c : Client)
      → lookup p w.heap ≡ some c
      → Safe (AttachPost w p c) (attach_net_client e p w)
  unfolding attach_net_client
  attach_net_client-Safe w p c h = Safe-load Q w p c _ h (
      Safe-test Q (is_set (lookup c.big_id w.server.clients)) _ _ w
        (λ t. inl (refl, SameStore-refl w))
        λ t.
          Safe-chain (λ (r : Bool × World). SameStore w r.1) Q
            (lift (attach_handle_to_dispatch e w.server.dispatch c.sock (client p)) w) _
            (Safe-lift _ w (attach-Tame w.server.dispatch c.sock (client p)))
            λ there v k. Safe-if Q (not there) _ _ v (inl (refl, k)) (
              Safe-chain (λ (r : Bool × World). SameStore w r.1) Q
                (ctl_udp_event e add ene_read (client p) v) _
                (Safe-mono (λ (r : Bool × World). SameStore v r.1)
                  (λ (r : Bool × World). SameStore w r.1) _
                  (ctl_udp_event-Safe v add ene_read (client p) (c, rw k.same_heap h))
                  (λ r. SameStore-trans w v r.1 k))
                λ armed u k'.
                  Safe-if Q (not armed) _ _ u (inl (refl, k'))
                    (inr (refl, ground arith, entered-SameStore w u c.big_id p k'))))
    where
      Q : Bool × World → Type 0
      Q = AttachPost w p c
