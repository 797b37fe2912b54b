-- ===== src/Server/Listen.antt =====
-- Starting the server: `TryListen`.
use udp_kcp_plugin.Base.{
  ℕ, ◌≡◌, is_set, refl, sym, ◌∙◌, Bool, not, true, false, ◌||◌, none, some, ◌∷◌, arith,
}
use udp_kcp_plugin.Base.Outcome.{ok, Prog, pure}
use udp_kcp_plugin.Base.Hoare.{Returns}
use udp_kcp_plugin.System.{
  Addr, bound, Log, Env, made_reusable, made_nonblocking, opened, Handle, server,
}
use udp_kcp_plugin.NetUnit.{set_handle}
use udp_kcp_plugin.Socket.{prepare, any_addr}
use udp_kcp_plugin.Dispatch.{attach_handle_to_dispatch, ctl_event, add, ene_read}
use udp_kcp_plugin.Server.{World, ctl_udp_event, get_handle, set_server, lift}
use udp_kcp_plugin.Base.Tame.{Tame, Safe, Safe-chain, Safe-if, Safe-mono}
use udp_kcp_plugin.Server.Sound.{Grows, Grows-trans, SameStore, Safe-lift}
use udp_kcp_plugin.Server.Attach.{attach-Tame, ctl_udp_event-Safe}
use udp_kcp_plugin.Server.Run.{try_listen, start_listen, set_run}

module _ (e : Env) where
  -- The call of a server that has a socket already.
  try_listen-refused :
      (w : World) (fd : ℕ) → w.server.sock ≡ some fd → try_listen e w ≡ ok (false, w)
  unfolding try_listen
  try_listen-refused w fd h = ground arith

  -- On Linux, for a server without a socket, where `bind` succeeds: `TryListen` returns, the server
  -- holds the socket, and it runs now if the call succeeded and else as much as before. The bug: either
  -- way, so also where the dispatcher refused the socket, every later `TryListen` fails and does nothing.
  pub try_listen-once :
      (w : World) (fd : ℕ)
      → e.build.is_linux ≡ true
      → w.server.sock ≡ none
      → e.os.open_socket w.log ≡ some fd
      → ((l : Log) → e.os.bind l (some fd) (any_addr w.server.port) ≡ true)
      → Returns
          (λ r.
            (r.1.server.sock ≡ some fd)
            × (r.1.server.running ≡ (r.0 || w.server.running))
            × (try_listen e r.1 ≡ ok (false, r.1)))
          (try_listen e w)
  unfolding try_listen start_listen prepare set_handle set_server set_run ctl_udp_event get_handle
      attach_handle_to_dispatch ctl_event
  try_listen-once w fd lin s o b =
      ground
        (arith, b (made_nonblocking (some fd) ∷ made_reusable (some fd) ∷ opened (some fd) ∷ w.log))

-- All but the log, the posted operations and the server's socket is as it was.
pub record Kept (w v : World) : Type 0 where
  pub heap_kept : v.heap ≡ w.heap
  pub next_kept : v.next ≡ w.next
  pub clients_kept : v.server.clients ≡ w.server.clients
  pub running_kept : v.server.running ≡ w.server.running
  pub posts_kept : Grows w.posts v.posts

Kept-trans : (u v w : World) → Kept u v → SameStore v w → Kept u w
Kept-trans u v w h k = record {
  heap_kept = k.same_heap ∙ h.heap_kept;
  next_kept = k.same_next ∙ h.next_kept;
  clients_kept = rw k.same_server h.clients_kept;
  running_kept = rw k.same_server h.running_kept;
  posts_kept = Grows-trans u.posts v.posts w.posts h.posts_kept k.grown;
}

Kept-log : (w : World) (l : Log) → Kept w (record w { log = l })
Kept-log w l = record {
  heap_kept = refl;
  next_kept = refl;
  clients_kept = refl;
  running_kept = refl;
  posts_kept = λ b. (b, λ i x h. h);
}

-- A call that touches the log only and uses no dead object.
lifted :
    {A : Type 0} (w : World) (m : Prog Log A) (v : World)
    → Kept w v
    → Tame m
    → Safe (λ (r : A × World). Kept w r.1) (lift m v)
lifted {A} w m v k h =
    Safe-mono (λ (r : A × World). SameStore v r.1) (λ (r : A × World). Kept w r.1) (lift m v)
      (Safe-lift m v h) (λ r k'. Kept-trans w v r.1 k k')

-- The server runs if the call succeeded and else as much as before; the rest is kept.
abbrev pub Listens : World → Bool × World → Type 0
Listens w r =
    (v : World) × Kept w v
    × (r.1 ≡ record v { server = record (v.server) { running = r.0 || w.server.running } })

module _ (e : Env) where
  Kept-Listens : (w v : World) → Kept w v → Listens w (false, v)
  Kept-Listens w v k = (v, k, rw (sym k.running_kept) refl)

  start_listen-Safe :
      (w v : World) (soc : Handle) → Kept w v → Safe (Listens w) (start_listen e soc v)
  unfolding start_listen set_server set_run
  start_listen-Safe w v soc h =
      let u : World = record v {
        server = record (v.server) { sock = set_handle v.server.sock soc };
      } in
      let hu : Kept w u = record {
        heap_kept = h.heap_kept;
        next_kept = h.next_kept;
        clients_kept = h.clients_kept;
        running_kept = h.running_kept;
        posts_kept = h.posts_kept;
      } in
      Safe-chain (λ (r : Bool × World). Kept w r.1) (Listens w)
        (lift (attach_handle_to_dispatch e v.server.dispatch soc server) u) _
        (lifted w _ u hu (attach-Tame e v.server.dispatch soc server))
        λ _ t k.
          Safe-chain (λ (r : Bool × World). Kept w r.1) (Listens w)
            (ctl_udp_event e add ene_read server t) _
            (Safe-mono (λ (r : Bool × World). SameStore t r.1) (λ (r : Bool × World). Kept w r.1) _
              (ctl_udp_event-Safe e t add ene_read server tt) (λ r k'. Kept-trans w t r.1 k k'))
            λ armed t' k'.
              Safe-if (Listens w) (not armed) _ _ t' (Kept-Listens w t' k') (t', k', refl)

  -- On both systems and from any state: `TryListen` is not ended by the use of an object that is not
  -- allocated; where it returns, the server runs if the call succeeded and else as much as before, and
  -- the clients, the map and the posted operations that were there are as they were.
  pub try_listen-Safe : (w : World) → Safe (Listens w) (try_listen e w)
  unfolding try_listen lift prepare
  try_listen-Safe w = Safe-if (Listens w) (is_set w.server.sock) (pure false) _ w (quiet w.log) (
      Safe-if (Listens w) (not (is_set soc)) (pure false) _ (logged (opened soc ∷ w.log))
        (quiet (opened soc ∷ w.log))
        (Safe-if (Listens w) (not (e.os.bind ready soc any)) (pure false) (start_listen e soc)
          (logged done) (quiet done) (start_listen-Safe w (logged done) soc (Kept-log w done))))
    where
      logged : Log → World
      logged l = record w { log = l }

      quiet : (l : Log) → Listens w (false, logged l)
      quiet l = Kept-Listens w (logged l) (Kept-log w l)

      soc : Handle
      soc = e.os.open_socket w.log

      any : Addr
      any = any_addr w.server.port

      ready : Log
      ready = made_nonblocking soc ∷ made_reusable soc ∷ opened soc ∷ w.log

      done : Log
      done = bound soc any (e.os.bind ready soc any) ∷ ready
