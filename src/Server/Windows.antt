-- ===== src/Server/Windows.antt =====
-- A round of the server's loop on Windows keeps the invariant and follows no dangling pointer.
use udp_kcp_plugin.Base.{
  ℕ, ◌≡◌, refl, some, none, Option, List, [], ◌∷◌, ◌++◌, drop, length, ◌==◌, false,
}
use udp_kcp_plugin.Base.Assoc.{Below}
use udp_kcp_plugin.Base.Outcome.{ok, abort, breaks, Prog}
use udp_kcp_plugin.Base.Tame.{Safe, Safe-chain, Safe-chain_eq, Safe-if, Safe-test, Safe-mono}
use udp_kcp_plugin.System.{Log, Env, Completion, waited}
use udp_kcp_plugin.Dispatch.{ene_read, max_req_per_time}
use udp_kcp_plugin.Dispatch.Windows.{Posts, WinEvent, translate_all, dispatch_update_windows}
use udp_kcp_plugin.Server.{get, set_posts, set_server, World, lift}
use udp_kcp_plugin.Server.Run.{
  handle_event_windows, handle_all_windows, poll_windows, update_client, server_update,
}
use udp_kcp_plugin.Directory.{Steps}
use udp_kcp_plugin.Server.Sound.{Safe-lift_post, IsSound, SameStore, SameStore-Evolves}
use udp_kcp_plugin.Server.Pending.{
  IsRead, AllRead, AllRead-Others, AllRead-mono, finished, entries_of, AllTranslated,
  translate_all-Safe,
}
use udp_kcp_plugin.Server.Turns.{Turns, Turns-trans, Turns-refl, Evolves-Turns, IsLive-Turns}
use udp_kcp_plugin.Server.Loop.{update_client-Safe}
use udp_kcp_plugin.Server.Reads.{Served, read_windows-Safe}

-- The dispatcher's results are in the server's array and among its operations.
abbrev arrived : World → World → Posts → List WinEvent → World
arrived w v p evs = record v {
  posts = p;
  server = record (w.server) { events = evs ++ drop (length evs) w.server.events };
}

arrived-Turns :
    (w v : World) (p : Posts) (evs : List WinEvent)
    → IsSound w
    → Below p.next p.infos
    → SameStore w v
    → Turns w (arrived w v p evs)
arrived-Turns w v p evs s b h = record {
  sound = record {
    fresh = rw (h.same_heap, h.same_next) s.fresh;
    entries = rw h.same_heap s.entries;
    distinct = s.distinct;
  };
  stays = λ q c e. (c, rw h.same_heap e, refl);
  keeps = λ id q e. e;
  steady = (refl, refl, refl, refl);
  owned = λ o. rw h.same_heap o;
  steps = rw h.same_heap Steps.stays;
  fresh_posts = b;
}

-- What the dispatcher hands to the loop: the reads that have finished.
abbrev Taken : World → (Posts × List WinEvent) × Log → Type 0
Taken w r = Below r.0.0.next r.0.0.infos × AllRead w r.0.0 (entries_of r.0.1)

-- What the completion port reports: posted reads of units that have their objects, each once.
abbrev Ends : Env → World → Type 0
Ends e w =
    (cs : List Completion)
    → e.os.completions w.log w.server.dispatch max_req_per_time ≡ some cs
    → AllRead w w.posts (finished cs)

-- The same where the round asks it.
abbrev pub Completes : Env → World → ℕ → Type 0
Completes e w dlt =
    (v : World) (cs : List Completion)
    → update_client e dlt w.server.clients w ≡ ok (tt, v)
    → e.os.completions v.log v.server.dispatch max_req_per_time ≡ some cs
    → AllRead v v.posts (finished cs)

module _ (e : Env) where
  handle_event_windows-Safe :
      (w : World) (ev : WinEvent)
      → IsSound w
      → Below w.posts.next w.posts.infos
      → IsRead w w.posts ev.info
      → Safe (Served w ev.info) (handle_event_windows e ev w)
  unfolding handle_event_windows
  handle_event_windows-Safe w ev s b (x, at, _, live) =
      Safe-if (Served w ev.info) (ev.evt == ene_read) _ _ w
        (rw at (read_windows-Safe e w ev.info x s b live)) (Turns-refl w s b, λ j y n k. k)

  handle_all_windows-Safe :
      (w : World) (evs : List WinEvent)
      → IsSound w
      → Below w.posts.next w.posts.infos
      → AllRead w w.posts (entries_of evs)
      → Safe (λ (r : Unit {0} × World). Turns w r.1) (handle_all_windows e evs w)
  unfolding handle_all_windows
  handle_all_windows-Safe w [] s b h = Turns-refl w s b
  handle_all_windows-Safe w (ev ∷ evs) s b (r, n, h) =
      Safe-chain (Served w ev.info) (λ (r' : Unit {0} × World). Turns w r'.1)
        (handle_event_windows e ev w) (λ _. handle_all_windows e evs)
        (handle_event_windows-Safe w ev s b r)
        λ _ v (k, f).
          Safe-mono (λ (r' : Unit {0} × World). Turns v r'.1)
            (λ (r' : Unit {0} × World). Turns w r'.1) (handle_all_windows e evs v)
            (handle_all_windows-Safe v evs k.sound k.fresh_posts (
              AllRead-Others w v w.posts v.posts ev.info (entries_of evs)
                (λ u. IsLive-Turns w v u k) f n h))
            λ r' k'. Turns-trans w v r'.1 k k'

  dispatch_update_windows-Safe :
      (w : World)
      → Below w.posts.next w.posts.infos
      → Ends e w
      → Safe (Taken w) (
          dispatch_update_windows e w.server.dispatch max_req_per_time w.server.events w.posts
            w.log)
  unfolding dispatch_update_windows
  dispatch_update_windows-Safe w b h =
      answer (e.os.completions w.log w.server.dispatch max_req_per_time) h
    where
      answer :
          (got : Option (List Completion))
          → ((cs : List Completion) → got ≡ some cs → AllRead w w.posts (finished cs))
          → Safe (Taken w) (
              (elim got as (λ _. Prog Log (Posts × List WinEvent)) [
                | none ↦ abort breaks
                | some cs ↦ translate_all cs w.server.events w.posts
              ])
                (waited w.server.dispatch max_req_per_time ∷ w.log))
      answer none k = λ q. absurd (cc)
      answer (some cs) k =
          Safe-mono (AllTranslated w (finished cs) w.posts) (Taken w) _
            (translate_all-Safe w cs w.server.events w.posts _ b (k cs refl))
            λ r (b', _, all, is). (b', rw is all)

  poll_windows-Safe :
      (w : World)
      → IsSound w
      → Below w.posts.next w.posts.infos
      → Ends e w
      → Safe (λ (r : Unit {0} × World). Turns w r.1) (poll_windows e w)
  unfolding poll_windows get set_posts set_server
  poll_windows-Safe w s b h =
      Safe-chain (λ r. Taken w (r.0, r.1.log) × SameStore w r.1)
        (λ (r : Unit {0} × World). Turns w r.1)
        (lift (dispatch_update_windows e w.server.dispatch max_req_per_time w.server.events w.posts)
          w)
        _
        (Safe-lift_post (Taken w)
          (dispatch_update_windows e w.server.dispatch max_req_per_time w.server.events w.posts) w
          (dispatch_update_windows-Safe w b h))
        λ (p, evs) v ((b', all), same).
          let u = arrived w v p evs in
          let k = arrived-Turns w v p evs s b' same in
          Safe-mono (λ (r : Unit {0} × World). Turns u r.1) (λ (r : Unit {0} × World). Turns w r.1)
            (handle_all_windows e evs u)
            (handle_all_windows-Safe u evs k.sound b'
              (AllRead-mono w u p p (entries_of evs) (λ z. IsLive-Turns w u z k) (λ j x q. q) all))
            λ r k'. Turns-trans w u r.1 k k'

  -- On Windows, from a state in which the client map and the heap agree and the numbers of the posted
  -- operations are below the next one, and where the completion port, when the round asks it,
  -- reports posted reads of units that then have their objects, each once: a round of `Update` is never ended by the use of a client or of
  -- a posted operation that is not allocated, and where it returns, the map and the heap agree again,
  -- every object is still allocated under its identity, every identity has the client that it had,
  -- the operations' numbers are below the next one, the server's socket, dispatcher, port and
  -- running flag are as they were, and if every allocated client was the entry of its identity, every
  -- one is.
  pub server_update-Safe_windows :
      (w : World) (dlt : ℕ)
      → e.build.is_linux ≡ false
      → IsSound w
      → Below w.posts.next w.posts.infos
      → Completes e w dlt
      → Safe (λ (r : Unit {0} × World). Turns w r.1) (server_update e dlt w)
  unfolding server_update
  server_update-Safe_windows w dlt off s b h =
      Safe-chain_eq (λ (r : Unit {0} × World). SameStore w r.1)
        (λ (r : Unit {0} × World). Turns w r.1) (update_client e dlt w.server.clients w) _
        (update_client-Safe e dlt w w.server.clients s.entries)
        λ _ v got k.
          let here = Evolves-Turns w v b (SameStore-Evolves w v s k) in
          Safe-test (λ (r : Unit {0} × World). Turns w r.1) e.build.is_linux _ (poll_windows e) v
            (λ on. absurd (cc))
            λ _.
              Safe-mono (λ (r : Unit {0} × World). Turns v r.1)
                (λ (r : Unit {0} × World). Turns w r.1) (poll_windows e v)
                (poll_windows-Safe v here.sound here.fresh_posts λ cs. h v cs got)
                λ r k'. Turns-trans w v r.1 here k'
