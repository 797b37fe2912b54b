-- ===== src/Server/Rounds.antt =====
-- The loop in `main` of wheel/test/test.cpp: rounds of `Update` for as long as the server runs.
use udp_kcp_plugin.Base.{
  ◌≡◌, refl, true, false, List, [], ◌∷◌, arith, ℕ, Bool-cases, inl, inr, if◌then◌else◌,
}
use udp_kcp_plugin.Base.Outcome.{ok, Prog, pure, ◌>>=◌, ◌>>◌}
use udp_kcp_plugin.Base.Tame.{Safe, Safe-mono}
use udp_kcp_plugin.System.{Env}
use udp_kcp_plugin.Clock.{TimeOfDay, iclock}
use udp_kcp_plugin.Server.{World, is_run, get}
use udp_kcp_plugin.Server.Run.{server_update}
use udp_kcp_plugin.Server.Sound.{IsSound, Evolves}
use udp_kcp_plugin.Base.Assoc.{Below}
use udp_kcp_plugin.Server.Windows.{Completes, server_update-Safe_windows}
use udp_kcp_plugin.Server.Turns.{Turns, Turns-refl, Turns-trans, Evolves-Turns}
use udp_kcp_plugin.Server.Loop.{Awaits, server_update-Safe}

-- When the round asks, `epoll_wait` reports only units that then have their objects, and on Windows the
-- completion port posted reads of such units, each once.
abbrev pub Reports : Env → World → ℕ → Type 0
Reports e w dlt =
    (e.build.is_linux ≡ true → Awaits e w dlt) × (e.build.is_linux ≡ false → Completes e w dlt)

module _ (e : Env) where
  -- The rounds for the readings of the clock that are given; `sleep` changes nothing.
  unfoldable pub serve : List TimeOfDay → Prog World (Unit {0})
  unfolding get
  serve [] = pure tt
  serve (t ∷ ts) = do
    w ← get
    (if is_run w.server then (do server_update e (iclock t); serve ts) else pure tt)

-- A run of the loop, by its rounds: where it starts, the readings of the clock, where it has come to.
pub data Rounds (e : Env) : World → List TimeOfDay → World → Type 0 where
  done : {w : World} → Rounds e w [] w
  stopped : {w : World} {ts : List TimeOfDay} → w.server.running ≡ false → Rounds e w ts w
  round :
      {w v u : World} {ts : List TimeOfDay} (t : TimeOfDay)
      → w.server.running ≡ true
      → Reports e w (iclock t)
      → server_update e (iclock t) w ≡ ok (tt, v)
      → Rounds e v ts u
      → Rounds e w (t ∷ ts) u

module _ (e : Env) where
  -- Where a run of single rounds of `Update` leads from a state to another, the loop, given the same
  -- readings of the clock, returns in that state.
  pub serve-Rounds :
      (w u : World) (ts : List TimeOfDay) → Rounds e w ts u → serve e ts w ≡ ok (tt, u)
  unfolding serve
  serve-Rounds w u _ done = refl
  serve-Rounds w u [] (stopped s) = refl
  serve-Rounds w u (t ∷ ts) (stopped s) = ground arith
  serve-Rounds w u _ (round {v} {ts} t runs reports returns rest) =
      simp (runs, returns) (serve-Rounds v u ts rest)

  pub round-Turns :
      (w : World) (dlt : ℕ)
      → IsSound w
      → Below w.posts.next w.posts.infos
      → Reports e w dlt
      → Safe (λ (r : Unit {0} × World). Turns w r.1) (server_update e dlt w)
  round-Turns w dlt s b h = elim (Bool-cases e.build.is_linux) [
    | inl on ↦
        Safe-mono (λ (r : Unit {0} × World). Evolves w r.1) (λ (r : Unit {0} × World). Turns w r.1)
          (server_update e dlt w) (server_update-Safe e w dlt on s (h.0 on))
          (λ r k. Evolves-Turns w r.1 b k)
    | inr off ↦ server_update-Safe_windows e w dlt off s b (h.1 off)
  ]

  pub Rounds-Turns :
      (w u : World) (ts : List TimeOfDay)
      → IsSound w
      → Below w.posts.next w.posts.infos
      → Rounds e w ts u
      → Turns w u
  Rounds-Turns w u _ s b done = Turns-refl w s b
  Rounds-Turns w u _ s b (stopped x) = Turns-refl w s b
  Rounds-Turns w u _ s b (round {v} {ts} t runs reports returns rest) =
      let k : Turns w v = rw returns at (round-Turns w (iclock t) s b reports) in
      Turns-trans w v u k (Rounds-Turns v u ts k.sound k.fresh_posts rest)

  -- From a state in which the client map and the heap agree and the numbers of the posted
  -- operations are below the next one, and however many rounds of the loop were run in each of
  -- which the system, when the round asked, reported only units that then had their objects, and
  -- on Windows posted reads of such units, each once: the next such round is not ended by the use
  -- of an object that is not allocated, and where it returns, the map and the heap agree, the
  -- numbers are below the next one, every client that was there before the first round is
  -- allocated and is still the client of its identity, the server's socket, dispatcher, port and
  -- running flag are as they were before the first round, and if every allocated client was the
  -- entry of its identity before the first round, every one is.
  pub Rounds-Safe :
      (w u : World) (ts : List TimeOfDay) (t : TimeOfDay)
      → IsSound w
      → Below w.posts.next w.posts.infos
      → Rounds e w ts u
      → Reports e u (iclock t)
      → Safe (λ (r : Unit {0} × World). Turns w r.1) (server_update e (iclock t) u)
  Rounds-Safe w u ts t s b run reports =
      let k : Turns w u = Rounds-Turns w u ts s b run in
      Safe-mono (λ (r : Unit {0} × World). Turns u r.1) (λ (r : Unit {0} × World). Turns w r.1)
        (server_update e (iclock t) u) (round-Turns u (iclock t) k.sound k.fresh_posts reports)
        λ r k'. Turns-trans w u r.1 k k'
