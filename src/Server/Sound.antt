-- ===== src/Server/Sound.antt =====
-- The server's invariant: the client map and the heap of client objects agree.
use udp_kcp_plugin.Base.{
  ℕ, ◌≡◌, refl, ◌∙◌, none, some, List, [], ◌∷◌, ◌==◌, arith, inl, inr, Bool-cases,
}
use udp_kcp_plugin.Base.Assoc.{lookup, Below}
use udp_kcp_plugin.Base.Outcome.{Outcome, ok, fault, Prog, chain}
use udp_kcp_plugin.Base.Tame.{Safe, Tame}
use udp_kcp_plugin.System.{Log}
use udp_kcp_plugin.Client.{Client}
use udp_kcp_plugin.Directory.{Steps}
use udp_kcp_plugin.Directory.Laws.{Steps-trans}
use udp_kcp_plugin.Server.View.{view}
use udp_kcp_plugin.Dispatch.Windows.{Posts, WinInfo}
use udp_kcp_plugin.Server.{Server, World, lift, load}

-- Every entry of the map points to an object that is allocated and has the entry's identity.
abbrev pub Entries : List (ℕ × Client) → List (ℕ × ℕ) → Type 0
Entries heap [] = Unit {0}
Entries heap ((id, p) ∷ m) =
    ((c : Client) × (lookup p heap ≡ some c) × (c.big_id ≡ id)) × Entries heap m

-- No identity has two entries.
abbrev pub Distinct : List (ℕ × ℕ) → Type 0
Distinct [] = Unit {0}
Distinct ((id, p) ∷ m) = (lookup id m ≡ none) × Distinct m

pub record IsSound (w : World) : Type 0 where
  -- addresses that `new` has not given out are not in use
  pub fresh : Below w.next w.heap
  pub entries : Entries w.heap w.server.clients
  pub distinct : Distinct w.server.clients

-- Every object that is allocated is the entry of its identity, so that none is lost.
abbrev pub Owned : List (ℕ × Client) → List (ℕ × ℕ) → Type 0
Owned heap m = (p : ℕ) (c : Client) → lookup p heap ≡ some c → lookup c.big_id m ≡ some p

-- The posted operations that were there are there still, as they were: new ones have new numbers.
abbrev pub Grows : Posts → Posts → Type 0
Grows p p' =
    Below p.next p.infos
    → Below p'.next p'.infos
      × ((i : ℕ) (x : WinInfo) → lookup i p.infos ≡ some x → lookup i p'.infos ≡ some x)

pub Grows-trans : (p q r : Posts) → Grows p q → Grows q r → Grows p r
Grows-trans p q r h k b =
    let (b', f) = h b in let (b'', g) = k b' in (b'', λ i x e. g i x (f i x e))

-- The members that no call behind `TryListen` changes: socket, dispatcher, port and flag.
abbrev pub Steady : Server → Server → Type 0
Steady s s' =
    (s'.sock ≡ s.sock) × (s'.dispatch ≡ s.dispatch) × (s'.port ≡ s.port) × (s'.running ≡ s.running)

pub Steady-trans : (r s t : Server) → Steady r s → Steady s t → Steady r t
Steady-trans r s t h k = (k.0 ∙ h.0, k.1 ∙ h.1, k.2 ∙ h.2, k.3 ∙ h.3)

-- What a call leaves to the units that were there: every object stays allocated under its identity,
-- and every identity keeps its client; no object is lost; the
-- directory goes its steps; and it leaves the posted operations and the server's own members.
pub record Evolves (w w' : World) : Type 0 where
  pub sound : IsSound w'
  pub stays :
      (p : ℕ) (c : Client)
      → lookup p w.heap ≡ some c
      → (c' : Client) × (lookup p w'.heap ≡ some c') × (c'.big_id ≡ c.big_id)
  pub keeps :
      (id p : ℕ) → lookup id w.server.clients ≡ some p → lookup id w'.server.clients ≡ some p
  pub more : Grows w.posts w'.posts
  pub steady : Steady w.server w'.server
  pub owned : Owned w.heap w.server.clients → Owned w'.heap w'.server.clients
  pub steps : Steps (view w) (view w')

pub Evolves-trans : (u v w : World) → Evolves u v → Evolves v w → Evolves u w
Evolves-trans u v w h k = record {
  sound = k.sound;
  stays = λ p c e.
      let (c', e', i) = h.stays p c e in let (c'', e'', i') = k.stays p c' e' in (c'', e'', i' ∙ i);
  keeps = λ id p e. k.keeps id p (h.keeps id p e);
  more = Grows-trans u.posts v.posts w.posts h.more k.more;
  steady = Steady-trans u.server v.server w.server h.steady k.steady;
  owned = λ o. k.owned (h.owned o);
  steps = Steps-trans (view u) (view v) (view w) h.steps k.steps;
}

-- All but the log and the posted operations is as it was.
pub record SameStore (w w' : World) : Type 0 where
  pub same_heap : w'.heap ≡ w.heap
  pub same_next : w'.next ≡ w.next
  pub same_server : w'.server ≡ w.server
  pub grown : Grows w.posts w'.posts

-- A call that only the log shows.
pub SameStore-log : (w : World) (l : Log) → SameStore w (record w { log = l })
SameStore-log w l = record {
  same_heap = refl;
  same_next = refl;
  same_server = refl;
  grown = λ b. (b, λ i x h. h);
}

pub SameStore-Evolves : (w w' : World) → IsSound w → SameStore w w' → Evolves w w'
SameStore-Evolves w w' s h = record {
  sound = record {
    fresh = rw (h.same_heap, h.same_next) s.fresh;
    entries = rw (h.same_heap, h.same_server) s.entries;
    distinct = rw h.same_server s.distinct;
  };
  stays = λ p c e. (c, rw h.same_heap e, refl);
  keeps = λ id p e. rw h.same_server e;
  more = h.grown;
  steady = rw h.same_server (refl, refl, refl, refl);
  owned = λ o. rw (h.same_heap, h.same_server) o;
  steps = rw (h.same_heap, h.same_server) Steps.stays;
}

pub Safe-lift :
    {A : Type 0} (m : Prog Log A) (w : World) → Tame m → Safe (λ r. SameStore w r.1) (lift m w)
unfolding lift
Safe-lift {A} m w h = go (m w.log) (h w.log)
  where
    go :
        (r : Outcome (A × Log))
        → Safe (λ _. Unit {0}) r
        → Safe
            (λ (r' : A × World). SameStore w r'.1)
            (elim r [ ok (a, l) ↦ ok (a, record w { log = l }) | fault f ↦ fault f ])
    go (ok (a, l)) k = SameStore-log w l
    go (fault f) k = k

pub Entries-map :
    (heap heap' : List (ℕ × Client)) (m : List (ℕ × ℕ))
    → ((p : ℕ) (c : Client)
        → lookup p heap ≡ some c
        → (c' : Client) × (lookup p heap' ≡ some c') × (c'.big_id ≡ c.big_id))
    → Entries heap m
    → Entries heap' m
Entries-map heap heap' [] f e = tt
Entries-map heap heap' ((id, p) ∷ m) f ((c, e, i), es) =
    let (c', e', i') = f p c e in ((c', e', i' ∙ i), Entries-map heap heap' m f es)

pub lookup-Entries :
    (heap : List (ℕ × Client)) (m : List (ℕ × ℕ)) (id p : ℕ)
    → Entries heap m
    → lookup id m ≡ some p
    → (c : Client) × (lookup p heap ≡ some c) × (c.big_id ≡ id)
unfolding lookup
lookup-Entries heap [] id p es h = absurd (cc)
lookup-Entries heap ((j, q) ∷ m) id p (x, es) h = elim (Bool-cases (j == id)) [
  | inl t ↦ (x.0, ground arith, ground arith)
  | inr t ↦ lookup-Entries heap m id p es (ground arith)
]

-- A pointer to an allocated object is read.
load-ok : (w : World) (p : ℕ) (c : Client) → lookup p w.heap ≡ some c → load p w ≡ ok (c, w)
unfolding load
load-ok w p c h = ground arith

pub Safe-load :
    {B : Type 0} (Q : B × World → Type 0) (w : World) (p : ℕ) (c : Client)
    (k : Client → Prog World B)
    → lookup p w.heap ≡ some c
    → Safe Q (k c w)
    → Safe Q (chain (load p w) k)
Safe-load Q w p c k h s = rw (load-ok w p c h) s

-- What a call leaves in the log's monad, it leaves in the world's.
pub Safe-lift_post :
    {A : Type 0} (P : A × Log → Type 0) (m : Prog Log A) (w : World)
    → Safe P (m w.log)
    → Safe (λ r. P (r.0, r.1.log) × SameStore w r.1) (lift m w)
unfolding lift
Safe-lift_post {A} P m w h = go (m w.log) h
  where
    go :
        (r : Outcome (A × Log))
        → Safe P r
        → Safe
            (λ (r' : A × World). P (r'.0, r'.1.log) × SameStore w r'.1)
            (elim r [ ok (a, l) ↦ ok (a, record w { log = l }) | fault f ↦ fault f ])
    go (ok (a, l)) k = (k, SameStore-log w l)
    go (fault f) k = k
