-- ===== src/Server/Reads.antt =====
-- A finished read of the completion port: the unit's `Recv`, the next read, and the end of its object.
use udp_kcp_plugin.Base.{ℕ, some, none, Option, arith, Bool}
use udp_kcp_plugin.Base.Assoc.{erase, Below, Below-erase, lookup-erase}
use udp_kcp_plugin.Base.Tame.{Safe, Safe-chain, Safe-mono}
use udp_kcp_plugin.System.{Bytes, Addr, Env, UnitRef, server, client}
use udp_kcp_plugin.Client.{client_recv}
use udp_kcp_plugin.Dispatch.{mod_, ene_read}
use udp_kcp_plugin.Dispatch.Windows.{WinInfo}
use udp_kcp_plugin.Server.{World, ctl_udp_event}
use udp_kcp_plugin.Server.Peers.{on_recv_by_addr, rearm, server_recv_windows}
use udp_kcp_plugin.Server.Run.{unit_recv_windows, delete_info, read_windows}
use udp_kcp_plugin.Server.View.{client_recv-Proceeds}
use udp_kcp_plugin.Server.Sound.{
  SameStore-log, IsSound, Evolves, Evolves-trans, SameStore, SameStore-Evolves,
}
use udp_kcp_plugin.Server.Attach.{IsLive, ctl_udp_event-Safe}
use udp_kcp_plugin.Server.Admit.{Found, Admits, at_client-Safe}
use udp_kcp_plugin.Server.Deliver.{on_recv_by_addr-Safe}
use udp_kcp_plugin.Server.Pending.{Others}
use udp_kcp_plugin.Server.Turns.{Turns}
use udp_kcp_plugin.Server.Loop.{Moves, IsLive-Evolves}

-- A read was handled: its operation may be gone, and the others are there.
abbrev pub Served : World → ℕ → Unit {0} × World → Type 0
Served w i r = Turns w r.1 × Others i w.posts r.1.posts

-- The object of operation `i` was deleted.
abbrev forgot : World → ℕ → World
forgot w i = record w { posts = record (w.posts) { infos = erase i w.posts.infos } }

forgot-Served :
    (w v : World) (i : ℕ)
    → Below w.posts.next w.posts.infos
    → Evolves w v
    → Served w i (tt, forgot v i)
forgot-Served w v i b h =
    let (b', f) = h.more b in
    (
      record {
        sound = record {
          fresh = h.sound.fresh;
          entries = h.sound.entries;
          distinct = h.sound.distinct;
        };
        stays = h.stays;
        keeps = h.keeps;
        steady = h.steady;
        owned = h.owned;
        steps = h.steps;
        fresh_posts = Below-erase v.posts.next i v.posts.infos b';
      },
      λ j x n e. ground (arith, lookup-erase i j v.posts.infos, f j x e),
    )

module _ (e : Env) where
  rearm-Safe : (w : World) (o : Option ℕ) → IsSound w → Found w o → Safe (Moves w) (rearm e o w)
  unfolding rearm
  rearm-Safe w none s h = SameStore-Evolves w w s (SameStore-log w w.log)
  rearm-Safe w (some p) s h =
      Safe-chain (λ (r : Bool × World). SameStore w r.1) (Moves w)
        (ctl_udp_event e mod_ ene_read (client p) w) _
        (ctl_udp_event-Safe e w mod_ ene_read (client p) h) λ _ v k. SameStore-Evolves w v s k

  server_recv_windows-Safe :
      (w : World) (bs : Bytes) (a : Addr)
      → IsSound w
      → Safe (Moves w) (server_recv_windows e bs a w)
  unfolding server_recv_windows
  server_recv_windows-Safe w bs a s =
      Safe-chain (Admits w) (Moves w) (on_recv_by_addr e bs a w) (rearm e)
        (on_recv_by_addr-Safe e w bs a s)
        λ o v k.
          Safe-mono (Moves v) (Moves w) (rearm e o v) (rearm-Safe v o k.0.sound k.1)
            λ r k'. Evolves-trans w v r.1 k.0 k'

  unit_recv_windows-Safe :
      (w : World) (u : UnitRef) (bs : Bytes) (a : Addr)
      → IsSound w
      → IsLive w u
      → Safe (Moves w) (unit_recv_windows e u bs a w)
  unfolding unit_recv_windows
  unit_recv_windows-Safe w server bs a s h = server_recv_windows-Safe w bs a s
  unit_recv_windows-Safe w (client p) bs a s (c, h) =
      at_client-Safe e w p c (λ c'. client_recv e c' (some bs)) s h
        (client_recv-Proceeds e c (some bs) w.log)

  pub read_windows-Safe :
      (w : World) (i : ℕ) (x : WinInfo)
      → IsSound w
      → Below w.posts.next w.posts.infos
      → IsLive w x.userdata
      → Safe (Served w i) (read_windows e i (some x) w)
  unfolding read_windows delete_info
  read_windows-Safe w i x s b h =
      Safe-chain (Moves w) (Served w i) (unit_recv_windows e x.userdata x.buf x.addr w) _
        (unit_recv_windows-Safe w x.userdata x.buf x.addr s h)
        λ _ v k.
          Safe-chain (λ (r : Bool × World). SameStore v r.1) (Served w i)
            (ctl_udp_event e mod_ ene_read x.userdata v) _
            (ctl_udp_event-Safe e v mod_ ene_read x.userdata (IsLive-Evolves w v x.userdata k h))
            λ _ t k'.
              forgot-Served w t i b (Evolves-trans w v t k (SameStore-Evolves v t k.sound k'))
