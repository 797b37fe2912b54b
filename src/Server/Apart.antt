-- ===== src/Server/Apart.antt =====
-- What a step leaves of the clients of other peers.
use udp_kcp_plugin.Base.{ℕ, ◌≡◌, ◌≢◌, refl, ◌∙◌, Option, none, some, ◌∷◌, arith}
use udp_kcp_plugin.Base.Assoc.{lookup, lookup-insert, lookup-erase, lookup-append}
use udp_kcp_plugin.Base.Outcome.{Prog, pure}
use udp_kcp_plugin.Base.Tame.{Safe, Safe-chain}
use udp_kcp_plugin.System.{Log, Env, Handle, closed}
use udp_kcp_plugin.Client.{Client, destroy}
use udp_kcp_plugin.Client.Tame.{destroy-Tame}
use udp_kcp_plugin.Server.{World, lift, at_client, delete_client}
use udp_kcp_plugin.Server.Peers.{give_up}
use udp_kcp_plugin.Server.Sound.{SameStore, Safe-lift, Safe-lift_post, Safe-load}
use udp_kcp_plugin.Server.Changes.{allocated, entered}

-- The object at `q` is as it was, and so are the entries of all identities but `id`.
pub record Apart (id q : ℕ) (w v : World) : Type 0 where
  pub same_object : (d : Client) → lookup q w.heap ≡ some d → lookup q v.heap ≡ some d
  pub same_entries : (k : ℕ) → k ≢ id → lookup k v.server.clients ≡ lookup k w.server.clients

pub Apart-trans : (id q : ℕ) (u v w : World) → Apart id q u v → Apart id q v w → Apart id q u w
Apart-trans id q u v w h k = record {
  same_object = λ d e. k.same_object d (h.same_object d e);
  same_entries = λ j n. k.same_entries j n ∙ h.same_entries j n;
}

pub SameStore-Apart : (id q : ℕ) (w v : World) → SameStore w v → Apart id q w v
SameStore-Apart id q w v h = record {
  same_object = λ d e. rw h.same_heap e;
  same_entries = λ j n. rw h.same_server refl;
}

-- The unit that is returned, if there is one, has its object, which is another.
abbrev pub Beside : ℕ → World → Option ℕ → Type 0
Beside q w none = Unit {0}
Beside q w (some p) = (p ≢ q) × ((c : Client) × (lookup p w.heap ≡ some c))

module _ (e : Env) (id q : ℕ) where
  -- What each step leaves.
  abbrev pub Leaves : World → Unit {0} × World → Type 0
  Leaves w r = Apart id q w r.1

  abbrev pub Answers : World → Option ℕ × World → Type 0
  Answers w r = Apart id q w r.1 × Beside q r.1 r.0

  pub at_client-Apart :
      (w : World) (p : ℕ) (c : Client) (m : Client → Prog Log Client)
      → lookup p w.heap ≡ some c
      → p ≢ q
      → Safe (λ r. Unit {0}) (m c w.log)
      → Safe (λ r. Leaves w r × ((c' : Client) × (lookup p r.1.heap ≡ some c'))) (at_client p m w)
  unfolding at_client
  at_client-Apart w p c m h n k =
      Safe-load (λ r. Leaves w r × ((c' : Client) × (lookup p r.1.heap ≡ some c'))) w p c _ h
        (Safe-chain (λ (r : Client × World). Unit {0} × SameStore w r.1)
          (λ r. Leaves w r × ((c' : Client) × (lookup p r.1.heap ≡ some c'))) (lift (m c) w) _
          (Safe-lift_post (λ _. Unit {0}) (m c) w k)
          λ c' v (_, same). (
            record {
              same_object = λ d g. ground (arith, lookup-insert p q c' v.heap, same.same_heap);
              same_entries = λ j x. rw same.same_server refl;
            },
            (c', ground (arith, lookup-insert p p c' v.heap)),
          ))

  delete_client-Apart :
      (w : World) (p : ℕ) (c : Client)
      → lookup p w.heap ≡ some c
      → p ≢ q
      → Safe (Leaves w) (delete_client e p w)
  unfolding delete_client
  delete_client-Apart w p c h n = Safe-load (Leaves w) w p c _ h (
      Safe-chain (λ (r : Unit {0} × World). SameStore w r.1) (Leaves w) (lift (destroy e c) w) _
        (Safe-lift (destroy e c) w (destroy-Tame e c))
        λ _ v same. record {
          same_object = λ d g. ground (arith, lookup-erase p q v.heap, same.same_heap);
          same_entries = λ j x. rw same.same_server refl;
        })

  pub give_up-Apart :
      (w : World) (fd : Handle) (p : ℕ) (c : Client)
      → lookup p w.heap ≡ some c
      → p ≢ q
      → Safe (Answers w) (give_up e fd (some p) w)
  unfolding give_up
  give_up-Apart w fd p c h n =
      let v : World = record w { log = closed fd ∷ w.log } in
      Safe-chain (Leaves v) (Answers w) (delete_client e p v) (λ _. pure none)
        (delete_client-Apart v p c h n)
        λ _ x k. (record { same_object = k.same_object; same_entries = k.same_entries }, tt)

  -- The map has an entry more, for `id`.
  pub entered-Apart : (w : World) (k p : ℕ) → k ≡ id → Apart id q w (entered w k p)
  entered-Apart w k p y = record {
    same_object = λ d g. g;
    same_entries = λ j x. ground (arith, lookup-append w.server.clients k p j);
  }

  pub allocated-Apart : (w : World) (c : Client) → w.next ≢ q → Apart id q w (allocated w c)
  unfolding lookup
  allocated-Apart w c n = record { same_object = λ d g. ground arith; same_entries = λ j x. refl }
