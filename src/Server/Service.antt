-- ===== src/Server/Service.antt =====
-- Some clients in conversation, and what one reading of one of them leaves.
use udp_kcp_plugin.Base.{
  ℕ, ◌≡◌, ◌≢◌, ◌⊎◌, refl, ◌∙◌, sym, subst, some-injective, inl, inr, some, arith,
}
use udp_kcp_plugin.Base.Assoc.{lookup}
use udp_kcp_plugin.Base.Outcome.{Outcome, ok, fault, out_of_bounds, Prog, chain}
use udp_kcp_plugin.Base.Hoare.{Returns, Returns-map}
use udp_kcp_plugin.System.{Bytes, Env}
use udp_kcp_plugin.Plug.Silence.{AllAnswered}
use udp_kcp_plugin.Client.Decimal.{decimal}
use udp_kcp_plugin.Client.{Client, get_kcp_conv_id}
use udp_kcp_plugin.Client.Handshake.{HasRoom}
use udp_kcp_plugin.Server.{World}
use udp_kcp_plugin.Server.Sound.{Entries, Entries-map}
use udp_kcp_plugin.Server.Session.{Fills}
use udp_kcp_plugin.Server.Updates.{LogOnly}

-- `In` says which addresses are in service, and `Kind` what each block may be given to send.
module _ (e : Env) (In : ℕ → Type 0) (Kind : ℕ → Bytes → Type 0) where
  -- The client at an address is past its handshake, with its block and an empty buffer.
  pub record Speaks (w : World) (q : ℕ) : Type 0 where
    pub c : Client
    pub b : ℕ
    pub object : lookup q w.heap ≡ some c
    pub past : get_kcp_conv_id e c ≢ 0
    pub block : c.block ≡ some b
    pub room : HasRoom c
    pub kind : Kind b (decimal c.big_id)

  -- So are all that are in service, every entry of the map has its object, and no block has handed out
  -- bytes since it was last given something to send.
  pub record InService (w : World) : Type 0 where
    pub entries : Entries w.heap w.server.clients
    pub speaks : (q : ℕ) → In q → Speaks w q
    pub all_answered : AllAnswered Kind w.log

  -- Only the log is new, and the contents of the buffers of those in service.
  pub record Keeps (w v : World) : Type 0 where
    pub server_kept : v.server ≡ w.server
    pub next_kept : v.next ≡ w.next
    pub posts_kept : v.posts ≡ w.posts
    pub others_kept : (q : ℕ) → (In q → ⊥) → lookup q v.heap ≡ lookup q w.heap
    pub clients_kept :
        (q : ℕ) (d : Client)
        → lookup q w.heap ≡ some d
        → (buff : Bytes) × (lookup q v.heap ≡ some (record d { buff = buff }))

  pub record Served (w v : World) : Type 0 where
    pub keeps : Keeps w v
    pub service : InService v

  -- A reading of one of them fills its buffer.
  abbrev pub Overfills : World → Type 0
  Overfills w = (q : ℕ) × In q × ((d : Client) × (lookup q w.heap ≡ some d) × Fills e d)

  -- The end of a part of the service: all was served, or a reading filled a buffer and the zero behind
  -- it is written past its end.
  abbrev pub Serves : World → Outcome (Unit {0} × World) → Type 0
  Serves w r =
      Returns (λ (r' : Unit {0} × World). Served w r'.1) r
      ⊎ ((r ≡ fault out_of_bounds) × Overfills w)

  Keeps-trans : (u v w : World) → Keeps u v → Keeps v w → Keeps u w
  Keeps-trans u v w h k = record {
    server_kept = k.server_kept ∙ h.server_kept;
    next_kept = k.next_kept ∙ h.next_kept;
    posts_kept = k.posts_kept ∙ h.posts_kept;
    others_kept = λ q n. k.others_kept q n ∙ h.others_kept q n;
    clients_kept =
        λ q d x. let (b, y) = h.clients_kept q d x in k.clients_kept q (record d { buff = b }) y;
  }

  Overfills-before : (w v : World) → InService w → Keeps w v → Overfills v → Overfills w
  Overfills-before w v s k (q, inside, (d, object, fills)) =
      let x : Speaks w q = s.speaks q inside in
      let (buff, now) = k.clients_kept q x.c x.object in
      (
        q,
        inside,
        (
          x.c,
          x.object,
          subst (λ y. Fills e y)
              (some-injective d (record (x.c) { buff = buff }) (sym object ∙ now)) fills,
        ),
      )

  -- What follows a part that was served.
  pub Serves-after :
      (w v : World) (r : Outcome (Unit {0} × World))
      → InService w
      → Served w v
      → Serves v r
      → Serves w r
  Serves-after w v r s h (inl x) = inl (
      Returns-map (λ (r' : Unit {0} × World). Served v r'.1)
        (λ (r' : Unit {0} × World). Served w r'.1) r x
        (λ r' y. record { keeps = Keeps-trans w v r'.1 h.keeps y.keeps; service = y.service }))
  Serves-after w v r s h (inr (f, x)) = inr (f, Overfills-before w v s h.keeps x)

  -- One part after the other.
  pub Serves-then :
      (w : World) (r : Outcome (Unit {0} × World)) (k : Unit {0} → Prog World (Unit {0}))
      → InService w
      → Serves w r
      → ((v : World) → Served w v → Serves v (k tt v))
      → Serves w (chain r k)
  Serves-then w (ok (u, v)) k s (inl h) f = Serves-after w v (k tt v) s h (f v h)
  Serves-then w (ok (u, v)) k s (inr h) f = absurd (cc)
  Serves-then w (fault x) k s (inl h) f = absurd h
  Serves-then w (fault x) k s (inr (h, fills)) f = inr (ground (arith, h), fills)

  pub Keeps-Entries :
      (w v : World) → Keeps w v → Entries w.heap w.server.clients → Entries v.heap v.server.clients
  Keeps-Entries w v k es = rw k.server_kept (
      Entries-map w.heap v.heap w.server.clients
        (λ q d h. let (b, x) = k.clients_kept q d h in (record d { buff = b }, x, refl)) es)

  pub Speaks-kept :
      (w v : World) (q : ℕ) → lookup q v.heap ≡ lookup q w.heap → Speaks w q → Speaks v q
  Speaks-kept w v q h s = record {
    c = s.c;
    b = s.b;
    object = h ∙ s.object;
    past = s.past;
    block = s.block;
    room = s.room;
    kind = s.kind;
  }

  -- Where all but the log is as it was, and every message is answered.
  pub LogOnly-Served : (w v : World) → InService w → LogOnly Kind w v → Served w v
  LogOnly-Served w v s (same, all) =
      let k : Keeps w v = record {
        server_kept = λ i. (same i).server;
        next_kept = λ i. (same i).next;
        posts_kept = λ i. (same i).posts;
        others_kept = λ q n i. lookup q ((same i).heap);
        clients_kept = λ q d h. (d.buff, (λ i. lookup q ((same i).heap)) ∙ h);
      } in
      record {
        keeps = k;
        service = record {
          entries = Keeps-Entries w v k s.entries;
          speaks =
              λ q inside. Speaks-kept w v q (λ i. lookup q ((same i).heap)) (s.speaks q inside);
          all_answered = all s.all_answered;
        };
      }
