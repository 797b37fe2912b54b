-- ===== src/Server/Refines.antt =====
-- The server implements the directory: every call goes its steps.
use udp_kcp_plugin.Base.{
  arith, suc, ℕ, ◌≡◌, ◌≢◌, ◌∙◌, sym, ap, inl, inr, Option-cases, some, some-injective, refl, Option,
  List,
}
use udp_kcp_plugin.Base.Assoc.{lookup, Below, lookup-Below}
use udp_kcp_plugin.Base.Outcome.{Outcome, ok, fault}
use udp_kcp_plugin.Base.Tame.{Safe, Safe-mono}
use udp_kcp_plugin.System.{Bytes, Addr, Env}
use udp_kcp_plugin.Address.{make_unique_id}
use udp_kcp_plugin.Clock.{TimeOfDay}
use udp_kcp_plugin.Directory.{Session, Steps}
use udp_kcp_plugin.Directory.Laws.{Steps-Keeps}
use udp_kcp_plugin.Client.{Client}
use udp_kcp_plugin.Server.{World}
use udp_kcp_plugin.Server.View.{view, session_of, session_at}
use udp_kcp_plugin.Server.Sound.{IsSound, lookup-Entries}
use udp_kcp_plugin.Server.Peers.{on_recv_by_addr}
use udp_kcp_plugin.Server.Run.{server_update}
use udp_kcp_plugin.Server.Apart.{Apart}
use udp_kcp_plugin.Server.Isolation.{on_recv_by_addr-Apart, on_recv_by_addr-Apart_at}
use udp_kcp_plugin.Server.Deliver.{on_recv_by_addr-Safe}
use udp_kcp_plugin.Server.Admit.{Admits}
use udp_kcp_plugin.Server.Turns.{Turns}
use udp_kcp_plugin.Server.Rounds.{Reports, Rounds, round-Turns, Rounds-Turns}

-- What a datagram of the peer with identity `id` may do to the directory.
abbrev pub Hears : ℕ → World → World → Type 0
Hears id w v = Steps (view w) (view v) × ((k : ℕ) → k ≢ id → view v k ≡ view w k)

apart-view :
    (id k : ℕ) (w v : World)
    → IsSound w
    → k ≢ id
    → ((k' : ℕ) → k' ≢ id → lookup k' v.server.clients ≡ lookup k' w.server.clients)
    → ((q : ℕ) (d : Client)
        → lookup q w.heap ≡ some d
        → lookup id w.server.clients ≢ some q
        → lookup q v.heap ≡ some d)
    → view v k ≡ view w k
apart-view id k w v s n entries objects =
    ap (session_at v.heap) (entries k n) ∙ elim (Option-cases (lookup k w.server.clients)) [
      | inl e' ↦ rw e' refl
      | inr (q, e') ↦
          let (c, found, own) = lookup-Entries w.heap w.server.clients k q s.entries e' in
          rw e' (
            ap session_of (
              objects q c found (λ h.
                let (c', found', own') = lookup-Entries w.heap w.server.clients id q s.entries h in
                n (
                  sym own
                  ∙ ap (λ (z : Client). z.big_id) (some-injective c c' (sym found ∙ found'))
                  ∙ own'))
              ∙ sym found))
    ]

module _ (e : Env) where
  -- On both systems, from a state in which the client map and the heap agree and the numbers of the
  -- posted operations are below the next one, and where the system, when the round asks, reports only
  -- units that then have their objects, and on Windows posted reads of such units, each once: a round of `Update` that returns has
  -- changed the directory of sessions, which the map and the heap stand for, in steps of its
  -- specification only: new peers were taken on under the identity of their address, or sessions without
  -- a conversation got theirs.
  pub server_update-Steps :
      (w : World) (dlt : ℕ)
      → IsSound w
      → Below w.posts.next w.posts.infos
      → Reports e w dlt
      → Safe (λ (r : Unit {0} × World). Steps (view w) (view r.1)) (server_update e dlt w)
  server_update-Steps w dlt s b h =
      Safe-mono (λ (r : Unit {0} × World). Turns w r.1)
        (λ (r : Unit {0} × World). Steps (view w) (view r.1)) (server_update e dlt w)
        (round-Turns e w dlt s b h) λ r k. k.steps

  -- From a state in which the client map and the heap agree and the numbers of the posted
  -- operations are below the next one, and through any run of rounds in each of which the system,
  -- when the round asked, reported only units that then had their objects, and on Windows posted
  -- reads of such units, each once: a session whose conversation stands is kept as it is, with its
  -- socket, its address, its role and its conversation.
  pub Rounds-Keeps :
      (w u : World) (ts : List TimeOfDay) (id : ℕ) (s : Session)
      → IsSound w
      → Below w.posts.next w.posts.infos
      → Rounds e w ts u
      → view w id ≡ some s
      → s.conv ≢ 0
      → view u id ≡ some s
  Rounds-Keeps w u ts id s g b run h n =
      Steps-Keeps (view w) (view u) id s n (Rounds-Turns e w u ts g b run).steps h

  -- From a state in which the client map and the heap agree: a datagram that is handled changes the
  -- directory in steps of its specification, and at no other identity than that of its peer.
  pub on_recv_by_addr-Hears :
      (w : World) (bs : Bytes) (addr : Addr)
      → IsSound w
      → Safe (λ r. Hears (make_unique_id addr) w r.1) (on_recv_by_addr e bs addr w)
  on_recv_by_addr-Hears w bs addr s =
      go (on_recv_by_addr e bs addr w) (on_recv_by_addr-Safe e w bs addr s)
        (λ q d h n. on_recv_by_addr-Apart e w bs addr q d s h n)
        (on_recv_by_addr-Apart_at e w bs addr (suc w.next) s (λ x. omega (arith, x)) beyond)
    where
      beyond : lookup (make_unique_id addr) w.server.clients ≢ some (suc w.next)
      beyond h =
          let (c, found, _) =
            lookup-Entries w.heap w.server.clients (make_unique_id addr) (suc w.next) s.entries h in
          omega (arith, lookup-Below w.next (suc w.next) c w.heap s.fresh found)

      go :
          (r : Outcome (Option ℕ × World))
          → Safe (Admits w) r
          → ((q : ℕ) (d : Client)
              → lookup q w.heap ≡ some d
              → lookup (make_unique_id addr) w.server.clients ≢ some q
              → Safe (λ r'. Apart (make_unique_id addr) q w r'.1) r)
          → Safe (λ r'. Apart (make_unique_id addr) (suc w.next) w r'.1) r
          → Safe (λ r'. Hears (make_unique_id addr) w r'.1) r
      go (fault f) k h a = k
      go (ok (o, v)) k h a = (
        k.0.steps,
        λ j n.
            apart-view (make_unique_id addr) j w v s n a.same_entries
              (λ q d e' g. (h q d e' g).same_object d e'),
      )
