-- ===== src/Server/Whole.antt =====
-- The whole program uses no object that is gone, and loses none.
use udp_kcp_plugin.Base.{
  some, ℕ, ◌≡◌, refl, true, false, none, Option, List, [], ◌∷◌, ◌⊎◌, inl, inr, arith, is_set, Bool,
  Bool-cases, if◌then◌else◌,
}
use udp_kcp_plugin.Base.Assoc.{lookup, Below}
use udp_kcp_plugin.Base.Outcome.{Outcome, ok, fault, pure, ◌>>◌}
use udp_kcp_plugin.Base.Tame.{
  Returns-Safe, Safe, Safe-chain, Safe-chain_eq, Safe-test, Safe-if, Safe-mono,
}
use udp_kcp_plugin.System.{Bytes, Handle, Log, Env}
use udp_kcp_plugin.Clock.{TimeOfDay, iclock}
use udp_kcp_plugin.Server.{Server, World, is_run}
use udp_kcp_plugin.Server.Life.{
  new_server, new_server_windows, server_destroy, server_destroy_windows, new_members,
}
use udp_kcp_plugin.Server.Run.{try_listen, server_update}
use udp_kcp_plugin.Server.Sound.{Owned, IsSound, Evolves}
use udp_kcp_plugin.Directory.Laws.{IsConsistent, Steps-IsConsistent}
use udp_kcp_plugin.Server.View.{view}
use udp_kcp_plugin.Server.Turns.{Turns, Turns-refl, Turns-trans}
use udp_kcp_plugin.Dispatch.{init}
use udp_kcp_plugin.Server.Free.{Destroyed, Destroyed-none, server_destroy-Returns}
use udp_kcp_plugin.Server.Listen.{Listens, try_listen-Safe}
use udp_kcp_plugin.Dispatch.Windows.{init_windows}
use udp_kcp_plugin.Server.Rounds.{serve, Reports, round-Turns}
use udp_kcp_plugin.Server.Program.{
  any_text, main_port, born, make_server, leave, listen_and_serve, main,
}

-- What the constructor leaves: a server that has no clients and does not run.
abbrev IsNew : Server × Log → Type 0
IsNew r = (r.0.clients ≡ []) × (r.0.running ≡ false)

-- The map and the heap agree, no object is lost, and every client of the map was begun by its peer and
-- has the identity of its address, and has it for its conversation too, or none.
pub record IsWhole (w : World) : Type 0 where
  pub sound : IsSound w
  pub owned : Owned w.heap w.server.clients
  pub consistent : IsConsistent (view w)

-- Where the program stands: its server runs, or is gone.
abbrev pub Stands : Unit {0} × World → Type 0
Stands r =
    ((r.1.server.running ≡ true) × IsWhole r.1)
    ⊎ ((r.1.server.clients ≡ [])
        × ((q : ℕ) → lookup q r.1.heap ≡ none)
        × (r.1.server.dispatch ≡ none)
        × (r.1.server.sock ≡ none))

pub born-IsWhole : (s : Server) (l : Log) → s.clients ≡ [] → IsWhole (born s l)
unfolding lookup
born-IsWhole s l h = record {
  sound = record { fresh = tt; entries = rw h tt; distinct = rw h tt };
  owned = λ p c e. absurd (cc);
  consistent = λ id t e. absurd (ground (arith, h));
}

pub Listens-IsWhole : (w : World) (b : Bool) (v : World) → IsWhole w → Listens w (b, v) → IsWhole v
Listens-IsWhole w b v s (u, k, h) = rw h (record {
  sound = record {
    fresh = rw (k.heap_kept, k.next_kept) s.sound.fresh;
    entries = rw (k.heap_kept, k.clients_kept) s.sound.entries;
    distinct = rw k.clients_kept s.sound.distinct;
  };
  owned = rw (k.heap_kept, k.clients_kept) s.owned;
  consistent = rw (k.heap_kept, k.clients_kept) s.consistent;
})

pub Evolves-IsWhole : (w v : World) → IsWhole w → Evolves w v → IsWhole v
Evolves-IsWhole w v s h = record {
  sound = h.sound;
  owned = h.owned s.owned;
  consistent = Steps-IsConsistent (view w) (view v) h.steps s.consistent;
}

Turns-IsWhole : (w v : World) → IsWhole w → Turns w v → IsWhole v
Turns-IsWhole w v s t = record {
  sound = t.sound;
  owned = t.owned s.owned;
  consistent = Steps-IsConsistent (view w) (view v) t.steps s.consistent;
}

Listens-Below :
    (w : World) (b : Bool) (v : World)
    → Below w.posts.next w.posts.infos
    → Listens w (b, v)
    → Below v.posts.next v.posts.infos
Listens-Below w b v f (u, k, h) = rw h (k.posts_kept f).0

-- The system reports as `Reports` says in every round that is run.
abbrev pub ReportsFrom : Env → World → List TimeOfDay → Type 0
ReportsFrom e w [] = Unit {0}
ReportsFrom e w (t ∷ ts) =
    Reports e w (iclock t)
    × ((v : World) → server_update e (iclock t) w ≡ ok (tt, v) → ReportsFrom e v ts)

module _ (e : Env) where
  new_server-IsNew :
      (addr : Bytes) (port : ℕ) (garbage : Handle) (l : Log)
      → Safe IsNew (new_server e addr port garbage l)
  unfolding new_server new_members init
  new_server-IsNew addr port garbage l = elim (Bool-cases (is_set (e.os.open_dispatch l))) [
    | inl t ↦ simp t (refl, refl)
    | inr t ↦ simp t (refl, refl)
  ]

  serve-Turns :
      (w : World) (ts : List TimeOfDay)
      → IsSound w
      → Below w.posts.next w.posts.infos
      → ReportsFrom e w ts
      → Safe (λ (r : Unit {0} × World). Turns w r.1) (serve e ts w)
  unfolding serve
  serve-Turns w [] s b h = Turns-refl w s b
  serve-Turns w (t ∷ ts) s b h =
      Safe-test (λ (r : Unit {0} × World). Turns w r.1) (is_run w.server)
        (server_update e (iclock t) >> serve e ts) (pure tt) w
        (λ runs.
          Safe-chain_eq (λ (r : Unit {0} × World). Turns w r.1)
            (λ (r : Unit {0} × World). Turns w r.1) (server_update e (iclock t) w) (λ _. serve e ts)
            (round-Turns e w (iclock t) s b h.0)
            λ _ v returns k.
              Safe-mono (λ (r : Unit {0} × World). Turns v r.1)
                (λ (r : Unit {0} × World). Turns w r.1) (serve e ts v)
                (serve-Turns v ts k.sound k.fresh_posts (h.1 v returns))
                λ r k'. Turns-trans w v r.1 k k')
        (λ _. Turns-refl w s b)

  make_server-IsNew :
      (wsa : Option (ℕ × ℕ)) (garbage : Handle) (l : Log) → Safe IsNew (make_server e wsa garbage l)
  unfolding make_server new_server_windows new_members init_windows
  make_server-IsNew wsa garbage l = elim (Bool-cases e.build.is_linux) [
    | inl on ↦ simp on (new_server-IsNew any_text main_port garbage l)
    | inr off ↦ simp off (go wsa)
  ]
    where
      go :
          (wsa' : Option (ℕ × ℕ))
          → Safe IsNew (new_server_windows e wsa' any_text main_port garbage l)
      go none = ground arith
      go (some (low, high)) = ground arith

  listen_and_serve-IsWhole :
      (w : World) (ts : List TimeOfDay)
      → IsWhole w
      → Below w.posts.next w.posts.infos
      → ((v : World) → try_listen e w ≡ ok (true, v) → ReportsFrom e v ts)
      → Safe (λ (r : Unit {0} × World). IsWhole r.1) (listen_and_serve e ts w)
  unfolding listen_and_serve
  listen_and_serve-IsWhole w ts s b h =
      Safe-chain_eq (Listens w) (λ (r : Unit {0} × World). IsWhole r.1) (try_listen e w)
        (λ listens. if listens then serve e ts else pure tt) (try_listen-Safe e w)
        λ listens v returns k.
          let now = Listens-IsWhole w listens v s k in
          Safe-test (λ (r : Unit {0} × World). IsWhole r.1) listens (serve e ts) (pure tt) v
            (λ on.
              Safe-mono (λ (r : Unit {0} × World). Turns v r.1)
                (λ (r : Unit {0} × World). IsWhole r.1) (serve e ts v)
                (serve-Turns v ts now.sound (Listens-Below w listens v b k) (h v (ground arith)))
                λ r t. Turns-IsWhole v r.1 now t)
            (λ _. now)

  leave-Stands : (w : World) → IsWhole w → Safe Stands (leave e w)
  unfolding leave
  leave-Stands w s =
      Safe-test Stands (is_run w.server) (pure tt) _ w (λ runs. inl (runs, s))
        λ _.
          let ends = server_destroy-Returns e w s.sound in
          Safe-if Stands e.build.is_linux (server_destroy e) (server_destroy_windows e) w
            (Returns-Safe (Destroyed w) Stands (server_destroy e w) ends.0
              (λ r d. inr (d.0.1, (λ q. Destroyed-none w r q s.owned d), d.1, d.2)))
            (Returns-Safe (Destroyed w) Stands (server_destroy_windows e w) ends.1
              (λ r d. inr (d.0.1, (λ q. Destroyed-none w r q s.owned d), d.1, d.2)))

  -- On both systems, whatever the dispatcher held before and `WSAStartup` answers: where in every round
  -- that is run the system, when the round asks, reports only units that then have their objects, and on
  -- Windows posted reads of such units, each once, the whole program, from the constructor over
  -- `TryListen` and the loop to the destructor, is not ended by the use of an object that is not
  -- allocated; and where it returns, either its server runs, the map and the heap agree,
  -- every object that is allocated is the entry of its identity, and every client of the map was begun
  -- by its peer, has the identity of its address, and has that identity for its conversation or
  -- none; or the map is empty, no object is allocated, and the server has neither a dispatcher
  -- nor a socket left.
  pub main-Safe :
      (wsa : Option (ℕ × ℕ)) (garbage : Handle) (ts : List TimeOfDay) (l : Log)
      → ((s : Server) (l' : Log) (v : World)
          → make_server e wsa garbage l ≡ ok (s, l')
          → try_listen e (born s l') ≡ ok (true, v)
          → ReportsFrom e v ts)
      → Safe Stands (main e wsa garbage ts l)
  unfolding main
  main-Safe wsa garbage ts l h =
      go (make_server e wsa garbage l) (make_server-IsNew wsa garbage l) (λ s l' v e'. h s l' v e')
    where
      go :
          (r : Outcome (Server × Log))
          → Safe IsNew r
          → ((s : Server) (l' : Log) (v : World)
              → r ≡ ok (s, l')
              → try_listen e (born s l') ≡ ok (true, v)
              → ReportsFrom e v ts)
          → Safe Stands (elim r [
            | ok (s, l') ↦ (listen_and_serve e ts >> leave e) (born s l')
            | fault f ↦ fault f
          ])
      go (fault f) k h' = k
      go (ok (s, l')) k h' =
          Safe-chain (λ (r : Unit {0} × World). IsWhole r.1) Stands
            (listen_and_serve e ts (born s l')) (λ _. leave e)
            (listen_and_serve-IsWhole (born s l') ts (born-IsWhole s l' k.0) tt
              (λ v returns. h' s l' v refl returns))
            λ _ v k'. leave-Stands v k'
