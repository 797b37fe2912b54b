-- ===== src/Server/Changes.antt =====
-- The changes of the server's heap and map, each over the invariant.
use udp_kcp_plugin.Base.{
  some-injective, ℕ, suc, ◌≡◌, refl, sym, subst, ◌∙◌, none, some, List, [], ◌∷◌, ◌++◌, ◌==◌, arith,
  inl, inr, Bool-cases,
}
use udp_kcp_plugin.Base.Assoc.{
  lookup-append, lookup, insert, erase, lookup-insert, lookup-Below, Below-insert, Below-mono,
}
use udp_kcp_plugin.Client.{Client}
use udp_kcp_plugin.Server.{World}
use udp_kcp_plugin.Server.View.{Proceeds}
use udp_kcp_plugin.Server.ViewSteps.{IsBlank, stored-Steps, admitted-Steps}
use udp_kcp_plugin.Server.Sound.{Owned, IsSound, Evolves, Entries, Entries-map, Distinct}

-- A member function has changed the object at `p`.
abbrev pub stored : World → ℕ → Client → World
stored w p c' = record w { heap = insert p c' w.heap }

pub stored-Evolves :
    (w : World) (p : ℕ) (c c' : Client)
    → IsSound w
    → lookup p w.heap ≡ some c
    → Proceeds c c'
    → Evolves w (stored w p c')
stored-Evolves w p c c' s e x = record {
  sound = record {
    fresh = Below-insert w.next p c' w.heap (lookup-Below w.next p c w.heap s.fresh e) s.fresh;
    entries = Entries-map w.heap (insert p c' w.heap) w.server.clients stays s.entries;
    distinct = s.distinct;
  };
  stays = stays;
  keeps = λ id q h. h;
  more = λ b. (b, λ i x h. h);
  steady = (refl, refl, refl, refl);
  owned = owned;
  steps = stored-Steps w.heap w.server.clients p c c' s.entries e x;
}
  where
    u : c'.big_id ≡ c.big_id
    u = x.0

    stays :
        (q : ℕ) (d : Client)
        → lookup q w.heap ≡ some d
        → (d' : Client) × (lookup q (insert p c' w.heap) ≡ some d') × (d'.big_id ≡ d.big_id)
    stays q d h = elim (Bool-cases (p == q)) [
      | inl t ↦ (c', ground (arith, lookup-insert p q c' w.heap), ground arith)
      | inr t ↦ (d, ground (arith, lookup-insert p q c' w.heap), refl)
    ]

    owned : Owned w.heap w.server.clients → Owned (insert p c' w.heap) w.server.clients
    owned o q d h = elim (Bool-cases (p == q)) [
      | inl t ↦
          let same : some c' ≡ some d = sym (lookup-insert p q c' w.heap ∙ simp t) ∙ h in
          let mine : c' ≡ d = some-injective c' d same in
          subst (λ (x : Client). lookup x.big_id w.server.clients ≡ some q) mine
            (rw u (ground (arith, o p c e)))
      | inr f ↦ o q d (ground (arith, lookup-insert p q c' w.heap))
    ]

-- An object was allocated.
abbrev pub allocated : World → Client → World
allocated w c = record w { heap = (w.next, c) ∷ w.heap; next = suc w.next }

-- The object at an address that is not in use before is gone again.
abbrev pub dropped : World → ℕ → World
dropped w p = record w { heap = erase p w.heap }

-- The map got an entry.
abbrev pub entered : World → ℕ → ℕ → World
entered w id p = record w {
  server = record (w.server) { clients = w.server.clients ++ ((id, p) ∷ []) };
}

Entries-append :
    (heap : List (ℕ × Client)) (m : List (ℕ × ℕ)) (id p : ℕ) (c : Client)
    → Entries heap m
    → lookup p heap ≡ some c
    → c.big_id ≡ id
    → Entries heap (m ++ ((id, p) ∷ []))
Entries-append heap [] id p c es e i = ((c, e, i), tt)
Entries-append heap ((j, q) ∷ m) id p c (x, es) e i = (x, Entries-append heap m id p c es e i)

Distinct-append :
    (m : List (ℕ × ℕ)) (id p : ℕ) → Distinct m → lookup id m ≡ none → Distinct (m ++ ((id, p) ∷ []))
unfolding lookup
Distinct-append [] id p d h = (refl, tt)
Distinct-append ((j, q) ∷ m) id p d h =
    (ground (arith, lookup-append m id p j, d.0), Distinct-append m id p d.1 (ground arith))

-- A new object, as the entry of its identity.
abbrev pub admitted : World → Client → World
admitted w c = entered (allocated w c) c.big_id w.next

pub admitted-Evolves :
    (w : World) (c : Client)
    → IsSound w
    → lookup c.big_id w.server.clients ≡ none
    → IsBlank c
    → Evolves w (admitted w c)
unfolding lookup
admitted-Evolves w c s free new = record {
  sound = record {
    fresh = (omega arith, Below-mono w.next (suc w.next) w.heap (omega arith) s.fresh);
    entries =
        Entries-append ((w.next, c) ∷ w.heap) w.server.clients c.big_id w.next c
          (Entries-map w.heap ((w.next, c) ∷ w.heap) w.server.clients stays s.entries)
          (ground arith) refl;
    distinct = Distinct-append w.server.clients c.big_id w.next s.distinct free;
  };
  stays = stays;
  keeps = keeps;
  more = λ b. (b, λ i x h'. h');
  steady = (refl, refl, refl, refl);
  owned = owned;
  steps = admitted-Steps w.heap w.server.clients w.next c s.entries s.fresh free new;
}
  where
    stays :
        (q : ℕ) (d : Client)
        → lookup q w.heap ≡ some d
        → (d' : Client) × (lookup q ((w.next, c) ∷ w.heap) ≡ some d') × (d'.big_id ≡ d.big_id)
    stays q d h = (d, ground (arith, lookup-Below w.next q d w.heap s.fresh h), refl)

    keeps :
        (k q : ℕ)
        → lookup k w.server.clients ≡ some q
        → lookup k (w.server.clients ++ ((c.big_id, w.next) ∷ [])) ≡ some q
    keeps k q r = ground (arith, lookup-append w.server.clients c.big_id w.next k)

    owned :
        Owned w.heap w.server.clients
        → Owned ((w.next, c) ∷ w.heap) (w.server.clients ++ ((c.big_id, w.next) ∷ []))
    owned o q d h = elim (Bool-cases (w.next == q)) [
      | inl t ↦
          let same : some c ≡ some d = ground arith in
          let mine : c ≡ d = some-injective c d same in
          subst
            (λ (x : Client).
              lookup x.big_id (w.server.clients ++ ((c.big_id, w.next) ∷ [])) ≡ some q)
            mine (ground (arith, lookup-append w.server.clients c.big_id w.next c.big_id))
      | inr f ↦ keeps d.big_id q (o q d (ground arith))
    ]
