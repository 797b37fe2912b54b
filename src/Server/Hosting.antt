-- ===== src/Server/Hosting.antt =====
-- A server whose every client is in service, and what one reading of a unit leaves, new peers included.
use udp_kcp_plugin.Base.{
  ℕ, suc, ◌≡◌, ◌≢◌, ◌⊎◌, refl, sym, ap, ◌∙◌, subst, inl, inr, none, some, arith, Option, true, ◌==◌,
  ==_iff, Bool-cases, some-injective,
}
use udp_kcp_plugin.Base.Assoc.{lookup}
use udp_kcp_plugin.Base.Outcome.{Outcome, ok, fault, out_of_bounds, chain, pure, Prog}
use udp_kcp_plugin.Base.Hoare.{Returns, Returns-ok, Returns-map}
use udp_kcp_plugin.Base.Tame.{Safe}
use udp_kcp_plugin.System.{Bytes, Addr, Log, Env, KcpRecvFits}
use udp_kcp_plugin.Address.{make_unique_id}
use udp_kcp_plugin.Client.{Client, max_client_buff_len}
use udp_kcp_plugin.Client.Decimal.{decimal}
use udp_kcp_plugin.Plug.Messages.{Quiet}
use udp_kcp_plugin.Server.{Server, World}
use udp_kcp_plugin.Server.Peers.{on_recv_by_addr}
use udp_kcp_plugin.Server.Sound.{IsSound, Evolves, Evolves-trans}
use udp_kcp_plugin.Server.Apart.{Apart}
use udp_kcp_plugin.Server.Isolation.{on_recv_by_addr-Apart_at}
use udp_kcp_plugin.Server.Loop.{Moves}
use udp_kcp_plugin.Server.Session.{Fills}
use udp_kcp_plugin.Server.Service.{InService, Speaks, Serves}
use udp_kcp_plugin.Server.Welcome.{Works, Welcomed}
use udp_kcp_plugin.Server.Joins.{With, on_recv_by_addr-joins}

-- The addresses that are in the map.
abbrev pub Entry : World → ℕ → Type 0
Entry w q = (id : ℕ) × (lookup id w.server.clients ≡ some q)

module _ (e : Env) (Kind : ℕ → Bytes → Type 0) where
  -- The invariant holds, and every client in the map is in service.
  pub record Hosts (w : World) : Type 0 where
    pub sound : IsSound w
    pub service : InService e (Entry w) Kind w

  -- What a part of the loop leaves: no client is lost, and all that are in the map are in service.
  pub record Hosted (w v : World) : Type 0 where
    pub evolves : Evolves w v
    pub service : InService e (Entry v) Kind v

  -- Or a reading filled a buffer, and the zero behind it is written past its end.
  abbrev pub Hosting : World → Outcome (Unit {0} × World) → Type 0
  Hosting w r =
      Returns (λ (r' : Unit {0} × World). Hosted w r'.1) r
      ⊎ ((r ≡ fault out_of_bounds) × ((d : Client) × Fills e d))

  pub Hosted-Hosts : (w v : World) → Hosted w v → Hosts v
  Hosted-Hosts w v h = record { sound = h.evolves.sound; service = h.service }

  pub Hosting-after :
      (w v : World) (r : Outcome (Unit {0} × World)) → Hosted w v → Hosting v r → Hosting w r
  Hosting-after w v r h (inl x) = inl (
      Returns-map (λ (r' : Unit {0} × World). Hosted v r'.1)
        (λ (r' : Unit {0} × World). Hosted w r'.1) r x
        (λ r' y. record {
          evolves = Evolves-trans w v r'.1 h.evolves y.evolves;
          service = y.service;
        }))
  Hosting-after w v r h (inr x) = inr x

  -- One part after the other.
  pub Hosting-then :
      (w : World) (r : Outcome (Unit {0} × World)) (k : Unit {0} → Prog World (Unit {0}))
      → Hosting w r
      → ((v : World) → r ≡ ok (tt, v) → Hosted w v → Hosting v (k tt v))
      → Hosting w (chain r k)
  Hosting-then w (ok (u, v)) k (inl h) f = Hosting-after w v (k tt v) h (f v refl h)
  Hosting-then w (ok (u, v)) k (inr h) f = absurd (cc)
  Hosting-then w (fault x) k (inl h) f = absurd h
  Hosting-then w (fault x) k (inr (h, fills)) f = inr (ground (arith, h), fills)

  pub InService-only :
      (In Out : ℕ → Type 0) (w : World)
      → ((q : ℕ) → Out q → In q)
      → InService e In Kind w
      → InService e Out Kind w
  InService-only In Out w f s = record {
    entries = s.entries;
    speaks = λ q h.
        let y : Speaks e In Kind w q = s.speaks q (f q h) in
        record {
          c = y.c;
          b = y.b;
          object = y.object;
          past = y.past;
          block = y.block;
          room = y.room;
          kind = y.kind;
        };
    all_answered = s.all_answered;
  }

  -- Where those in the map were served and the map is as it was.
  pub Serves-Hosting :
      (w : World) (r : Outcome (Unit {0} × World))
      → Safe (Moves w) r
      → Serves e (Entry w) Kind w r
      → Hosting w r
  Serves-Hosting w (ok (u, v)) k (inl h) = inl (record {
    evolves = k;
    service =
        InService-only (Entry w) (Entry v) v
          (λ q (id, x). (id, subst (λ s. lookup id s.clients ≡ some q) h.keeps.server_kept x))
          h.service;
  })
  Serves-Hosting w (ok (u, v)) k (inr h) = absurd (cc)
  Serves-Hosting w (fault x) k (inl h) = absurd h
  Serves-Hosting w (fault x) k (inr (h, (q, inside, (d, object, fills)))) = inr (h, (d, fills))

-- The peer can be taken on whenever it is heard, and what it is then sent may be answered.
pub record Opens (e : Env) (Kind : ℕ → Bytes → Type 0) (port : ℕ) (peer : Addr) : Type 0 where
  pub fd : Log → ℕ
  pub b : ℕ
  pub opens : (l : Log) → e.os.open_socket l ≡ some (fd l)
  pub works : (l : Log) → Works e (fd l) b peer port
  pub some_id : make_unique_id peer ≢ 0
  pub kind : Kind b (decimal (make_unique_id peer))

-- Every peer that the server's socket has a datagram of can be taken on.
abbrev pub Welcomes : Env → (ℕ → Bytes → Type 0) → Server → Type 0
Welcomes e Kind s =
    (l : Log) (bs : Bytes) (a : Addr)
    → e.os.recv_from l s.sock max_client_buff_len ≡ some (bs, a)
    → Opens e Kind s.port a

module _ (e : Env) (quiet : Quiet e) (fits : KcpRecvFits e) (on : e.build.with_kcp ≡ true)
    (Kind : ℕ → Bytes → Type 0) where
  -- The new client's address is the only one that comes to the map.
  joined-With :
      (w v : World) (id q : ℕ)
      → lookup id v.server.clients ≡ some w.next
      → ((k : ℕ) → k ≢ id → lookup k v.server.clients ≡ lookup k w.server.clients)
      → Entry v q
      → With (Entry w) w.next q
  joined-With w v id q entry same (k, h) = elim (Bool-cases (k == id)) [
    | inl t ↦ inr (
        some-injective q w.next
          (sym h ∙ ap (λ j. lookup j v.server.clients) ((==_iff k id).0 t) ∙ entry))
    | inr f ↦ inl (k, sym (same k (λ x. ground arith)) ∙ h)
  ]

  -- The first datagram of a new peer.
  pub on_recv_by_addr-Hosting :
      (w : World) (bs : Bytes) (peer : Addr)
      → Hosts e Kind w
      → Opens e Kind w.server.port peer
      → Safe (Moves w) (chain (on_recv_by_addr e bs peer w) (λ _. pure tt))
      → lookup (make_unique_id peer) w.server.clients ≡ none
      → Hosting e Kind w (chain (on_recv_by_addr e bs peer w) (λ _. pure tt))
  on_recv_by_addr-Hosting w bs peer h k safe n =
      let id : ℕ = make_unique_id peer in
      let fd : ℕ = k.fd w.log in
      let ((p, v), got, ((who, entry, object, calls), service)) =
        Returns-ok
          (λ (r : Option ℕ × World).
            Welcomed e fd k.b peer w r × InService e (With (Entry w) w.next) Kind r.1)
          (on_recv_by_addr e bs peer w)
          (on_recv_by_addr-joins e (Entry w) Kind w fd k.b peer bs h.sound h.service (k.works w.log)
            (k.opens w.log) n k.some_id k.kind) in
      let apart : Safe (λ (r : Option ℕ × World). Apart id (suc w.next) w r.1) (ok (p, v)) =
        subst (Safe (λ (r : Option ℕ × World). Apart id (suc w.next) w r.1)) got (
          on_recv_by_addr-Apart_at e w bs peer (suc w.next) h.sound (λ x. omega (arith, x))
            (λ x. absurd (cc))) in
      let moved : Safe (Moves w) (ok (tt, v)) =
        subst (λ r. Safe (Moves w) (chain r (λ _. pure tt))) got safe in
      inl (
        rw got (record {
          evolves = moved;
          service =
              InService-only e Kind (With (Entry w) w.next) (Entry v) v
                (λ q x. joined-With w v id q entry apart.same_entries x) service;
        }))
