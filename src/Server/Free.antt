-- ===== src/Server/Free.antt =====
-- Destroying the server: every client object is deleted once, and none that is gone already.
use udp_kcp_plugin.Base.{
  ℕ, ◌≡◌, subst, Bool-cases, ◌==◌, some-injective, ◌∙◌, Option-cases, inl, inr, refl, none, some,
  List, [], ◌∷◌, arith,
}
use udp_kcp_plugin.Base.Assoc.{lookup, erase, lookup-erase}
use udp_kcp_plugin.Base.Hoare.{Returns, Returns-chain, Returns-map}
use udp_kcp_plugin.System.{Env, wsa_cleaned}
use udp_kcp_plugin.Client.{Client, destroy}
use udp_kcp_plugin.NetUnit.{net_unit_destroy, is_valid}
use udp_kcp_plugin.Plug.{kcp_release, use_kcp_plug}
use udp_kcp_plugin.Dispatch.{un_init}
use udp_kcp_plugin.Dispatch.Windows.{un_init_windows}
use udp_kcp_plugin.Base.Outcome.{Prog, ◌>>◌}
use udp_kcp_plugin.Server.{World, lift, load, get, set_server, delete_client}
use udp_kcp_plugin.Server.Life.{
  delete_all, free_all_client, close_all, server_destroy, close_all_windows, server_destroy_windows,
}
use udp_kcp_plugin.Server.Sound.{Owned, Entries, Distinct, IsSound}

Entries-erase :
    (heap : List (ℕ × Client)) (m : List (ℕ × ℕ)) (id p : ℕ) (c : Client)
    → Entries heap m
    → lookup p heap ≡ some c
    → c.big_id ≡ id
    → lookup id m ≡ none
    → Entries (erase p heap) m
unfolding lookup
Entries-erase heap [] id p c es h i n = tt
Entries-erase heap ((j, q) ∷ m) id p c ((d, k, r), es) h i n = (
  (d, ground (arith, lookup-erase p q heap), r),
  Entries-erase heap m id p c es h i (ground arith),
)

-- Every client of a map is gone from the heap.
abbrev Gone : List (ℕ × Client) → List (ℕ × ℕ) → Type 0
Gone heap [] = Unit {0}
Gone heap ((id, p) ∷ m) = (lookup p heap ≡ none) × Gone heap m

-- What was gone stays gone.
abbrev Freed : World → List (ℕ × ℕ) → Unit {0} × World → Type 0
Freed w m r = Gone r.1.heap m × ((q : ℕ) → lookup q w.heap ≡ none → lookup q r.1.heap ≡ none)

abbrev Emptied : World → Unit {0} × World → Type 0
Emptied w r =
    Gone r.1.heap w.server.clients
    × (r.1.server.clients ≡ [])
    × ((q : ℕ) → lookup q w.heap ≡ none → lookup q r.1.heap ≡ none)

-- Nothing of the server is left.
abbrev pub Destroyed : World → Unit {0} × World → Type 0
Destroyed w r = Emptied w r × (r.1.server.dispatch ≡ none) × (r.1.server.sock ≡ none)

Gone-lookup :
    (heap : List (ℕ × Client)) (m : List (ℕ × ℕ)) (id p : ℕ)
    → Gone heap m
    → lookup id m ≡ some p
    → lookup p heap ≡ none
unfolding lookup
Gone-lookup heap [] id p g h = absurd (cc)
Gone-lookup heap ((j, q) ∷ m) id p (x, g) h = elim (Bool-cases (j == id)) [
  | inl t ↦
      let same : some q ≡ some p = ground arith in
      subst (λ z. lookup z heap ≡ none) (some-injective q p same) x
  | inr f ↦ Gone-lookup heap m id p g (ground arith)
]

-- Where every object was the entry of its identity, no object is left.
pub Destroyed-none :
    (w : World) (r : Unit {0} × World) (q : ℕ)
    → Owned w.heap w.server.clients
    → Destroyed w r
    → lookup q r.1.heap ≡ none
Destroyed-none w r q o d = elim (Option-cases (lookup q w.heap)) [
  | inl n ↦ d.0.2 q n
  | inr (c, h) ↦ Gone-lookup r.1.heap w.server.clients c.big_id q d.0.0 (o q c h)
]

module _ (e : Env) where
  delete_client-erases :
      (w : World) (p : ℕ) (c : Client)
      → lookup p w.heap ≡ some c
      → Returns (λ (r : Unit {0} × World). r.1.heap ≡ erase p w.heap) (delete_client e p w)
  unfolding delete_client load lift destroy kcp_release net_unit_destroy is_valid use_kcp_plug
  delete_client-erases w p c h = ground arith

  delete_all-Returns :
      (w : World) (m : List (ℕ × ℕ))
      → Entries w.heap m
      → Distinct m
      → Returns (Freed w m) (delete_all e m w)
  unfolding delete_all
  delete_all-Returns w [] es d = (tt, λ q h. h)
  delete_all-Returns w ((id, p) ∷ m) ((c, h, i), es) (n, d) =
      Returns-chain (λ (r : Unit {0} × World). r.1.heap ≡ erase p w.heap) (Freed w ((id, p) ∷ m))
        (delete_client e p w) (λ _. delete_all e m) (delete_client-erases w p c h)
        λ _ v k.
          Returns-map (Freed v m) (Freed w ((id, p) ∷ m)) (delete_all e m v)
            (delete_all-Returns v m (rw k (Entries-erase w.heap m id p c es h i n)) d)
            λ r f. (
              (f.1 p (ground (arith, k, lookup-erase p p w.heap)), f.0),
              λ q g. f.1 q (ground (arith, k, lookup-erase p q w.heap)),
            )

  free_all_client-Returns : (w : World) → IsSound w → Returns (Emptied w) (free_all_client e w)
  unfolding free_all_client
  free_all_client-Returns w s =
      Returns-chain (Freed w w.server.clients) (Emptied w) (delete_all e w.server.clients w) _
        (delete_all-Returns w w.server.clients s.entries s.distinct) λ _ v k. (k.0, refl, k.1)

  close_all-Returns :
      (v : World)
      → Returns
          (λ (r : Unit {0} × World).
            (r.1.heap ≡ v.heap)
            × (r.1.server.clients ≡ v.server.clients)
            × (r.1.server.dispatch ≡ none)
            × (r.1.server.sock ≡ none))
          (close_all e v)
  unfolding close_all lift get set_server un_init net_unit_destroy is_valid
  close_all-Returns v = elim (Option-cases v.server.dispatch) [
    | inl d ↦ elim (Option-cases v.server.sock) [
      | inl s ↦ simp (d, s) (refl, refl, refl, refl)
      | inr s ↦ simp (d, s.1) (refl, refl, refl, refl)
    ]
    | inr d ↦ elim (Option-cases v.server.sock) [
      | inl s ↦ simp (d.1, s) (refl, refl, refl, refl)
      | inr s ↦ simp (d.1, s.1) (refl, refl, refl, refl)
    ]
  ]

  close_all_windows-close_all : (v : World) → close_all_windows e v ≡ close_all e v
  unfolding close_all_windows close_all lift get set_server un_init un_init_windows
  close_all_windows-close_all v = elim (Option-cases v.server.dispatch) [
    | inl d ↦ simp d
    | inr d ↦ simp d.1
  ]

  -- Whatever closes the rest as `close_all` does.
  emptied-Returns :
      (w : World) (k : Prog World (Unit {0}))
      → IsSound w
      → ((v : World) → k v ≡ close_all e v)
      → Returns (Destroyed w) ((free_all_client e >> k) w)
  emptied-Returns w k s same =
      Returns-chain (Emptied w) (Destroyed w) (free_all_client e w) (λ _. k)
        (free_all_client-Returns w s)
        λ _ v h. rw (same v) (
          Returns-map _ (Destroyed w) (close_all e v) (close_all-Returns v)
            λ r d. ((rw d.0 h.0, d.1 ∙ h.1, rw d.0 h.2), d.2, d.3))

  -- From a state in which the client map and the heap agree, destroying the server returns on Linux and
  -- on Windows, so it never follows a pointer to a client that is gone: no client of the map is
  -- allocated afterwards, nothing is that was not before, the map is empty, and the server has neither a dispatcher nor a socket left.
  pub server_destroy-Returns :
      (w : World)
      → IsSound w
      → Returns (Destroyed w) (server_destroy e w)
        × Returns (Destroyed w) (server_destroy_windows e w)
  unfolding server_destroy server_destroy_windows lift
  server_destroy-Returns w s = (
    emptied-Returns w (close_all e) s (λ v. refl),
    emptied-Returns (record w { log = wsa_cleaned ∷ w.log }) (close_all_windows e)
        (record { fresh = s.fresh; entries = s.entries; distinct = s.distinct })
        close_all_windows-close_all,
  )
