-- ===== src/Server/Session.antt =====
-- A peer that has its client: what becomes of its datagrams, one after the other.
use udp_kcp_plugin.Base.{
  ℕ, ◌≡◌, ◌≢◌, ◌⊎◌, ◌==◌, refl, ap, ◌∙◌, inl, inr, true, false, some, Option, List, [], ◌∷◌, length,
  arith,
}
use udp_kcp_plugin.Base.Assoc.{lookup, insert, lookup-insert}
use udp_kcp_plugin.Base.Outcome.{Outcome, ok, fault, out_of_bounds, Fault, Prog, pure, ◌>>=◌}
use udp_kcp_plugin.Base.Hoare.{Returns, Returns-ok, Returns-map}
use udp_kcp_plugin.System.{Bytes, Addr, Log, Env, KcpRecvFits}
use udp_kcp_plugin.Address.{make_unique_id}
use udp_kcp_plugin.Plug.{kcp_recv}
use udp_kcp_plugin.Plug.Messages.{Quiet}
use udp_kcp_plugin.Client.{Client, max_client_buff_len, get_kcp_conv_id, client_recv}
use udp_kcp_plugin.Client.Handshake.{HasRoom}
use udp_kcp_plugin.Client.Ends.{client_recv-Ends}
use udp_kcp_plugin.Server.{World, lift, load, at_client}
use udp_kcp_plugin.Server.Peers.{on_recv_by_addr, recv_at}
use udp_kcp_plugin.Server.Welcome.{at_client-ok}

-- The datagrams of one peer at the server's socket, in their order.
unfoldable pub deliver_all : Env → Addr → List Bytes → Prog World (Unit {0})
unfolding on_recv_by_addr
deliver_all e addr [] = pure tt
deliver_all e addr (bs ∷ bss) = do _ ← on_recv_by_addr e bs addr; deliver_all e addr bss

-- The peer has a client at `p`, whose conversation stands.
pub record Talks (e : Env) (w : World) (addr : Addr) (p : ℕ) (c : Client) : Type 0 where
  pub entry : lookup (make_unique_id addr) w.server.clients ≡ some p
  pub object : lookup p w.heap ≡ some c
  pub past : get_kcp_conv_id e c ≢ 0
  pub room : HasRoom c

-- Only the log and the contents of the client's buffer are new.
pub record OnlyBuff (p : ℕ) (c : Client) (w v : World) : Type 0 where
  pub server_kept : v.server ≡ w.server
  pub next_kept : v.next ≡ w.next
  pub posts_kept : v.posts ≡ w.posts
  pub others_kept : (q : ℕ) → (p == q) ≡ false → lookup q v.heap ≡ lookup q w.heap
  pub buff : Bytes
  pub full_size : length buff ≡ max_client_buff_len
  pub object_kept : lookup p v.heap ≡ some (record c { buff = buff })

OnlyBuff-refl :
    (p : ℕ) (c : Client) (w : World) → lookup p w.heap ≡ some c → HasRoom c → OnlyBuff p c w w
OnlyBuff-refl p c w h k = record {
  server_kept = refl;
  next_kept = refl;
  posts_kept = refl;
  others_kept = λ q n. refl;
  buff = c.buff;
  full_size = k.full_size;
  object_kept = h;
}

pub OnlyBuff-trans :
    (p : ℕ) (c : Client) (bs : Bytes) (u v w : World)
    → OnlyBuff p c u v
    → OnlyBuff p (record c { buff = bs }) v w
    → OnlyBuff p c u w
OnlyBuff-trans p c bs u v w h k = record {
  server_kept = k.server_kept ∙ h.server_kept;
  next_kept = k.next_kept ∙ h.next_kept;
  posts_kept = k.posts_kept ∙ h.posts_kept;
  others_kept = λ q n. k.others_kept q n ∙ h.others_kept q n;
  buff = k.buff;
  full_size = k.full_size;
  object_kept = k.object_kept;
}

pub at_client-fault :
    (w : World) (p : ℕ) (c : Client) (m : Client → Prog Log Client) (f : Fault)
    → lookup p w.heap ≡ some c
    → m c w.log ≡ fault f
    → at_client p m w ≡ fault f
unfolding at_client load lift
at_client-fault w p c m f h k = ground arith

module _ (e : Env) where
  pub on_recv_by_addr-known :
      (w : World) (bs : Bytes) (addr : Addr) (p : ℕ)
      → lookup (make_unique_id addr) w.server.clients ≡ some p
      → on_recv_by_addr e bs addr w ≡ recv_at e bs p w
  unfolding on_recv_by_addr
  on_recv_by_addr-known w bs addr p h = ground arith

  pub on_recv_by_addr-ok :
      (w : World) (bs : Bytes) (addr : Addr) (p : ℕ) (c c' : Client) (l : Log)
      → Talks e w addr p c
      → client_recv e c (some bs) w.log ≡ ok (c', l)
      → on_recv_by_addr e bs addr w ≡ ok (some p, record w { log = l; heap = insert p c' w.heap })
  unfolding recv_at
  on_recv_by_addr-ok w bs addr p c c' l t h =
      rw
        (
          on_recv_by_addr-known w bs addr p t.entry,
          at_client-ok w p c c' (λ d. client_recv e d (some bs)) l t.object h,
        )
        refl

  pub on_recv_by_addr-fault :
      (w : World) (bs : Bytes) (addr : Addr) (p : ℕ) (c : Client) (f : Fault)
      → Talks e w addr p c
      → client_recv e c (some bs) w.log ≡ fault f
      → on_recv_by_addr e bs addr w ≡ fault f
  unfolding recv_at
  on_recv_by_addr-fault w bs addr p c f t h =
      rw
        (
          on_recv_by_addr-known w bs addr p t.entry,
          at_client-fault w p c (λ d. client_recv e d (some bs)) f t.object h,
        )
        refl

  -- A reading of the client's socket and block that fills a buffer.
  abbrev pub Fills : Client → Type 0
  Fills c =
      (input : Option Bytes) × (buff : Bytes) × (l : Log) × (b : Bytes) × (t : Log) × (kcp_recv e
          c.block c.sock input buff max_client_buff_len l
        ≡ ok ((b, max_client_buff_len), t))

  -- All were delivered, and only the client's buffer changed; or a reading filled it, and the zero
  -- behind what was read is written past its end.
  abbrev pub Delivered : ℕ → Client → World → Outcome (Unit {0} × World) → Type 0
  Delivered p c w r =
      Returns (λ (r' : Unit {0} × World). OnlyBuff p c w r'.1) r
      ⊎ ((r ≡ fault out_of_bounds) × Fills c)

  pub stored-OnlyBuff :
      (w : World) (p : ℕ) (c c' : Client) (l : Log)
      → c' ≡ record c { buff = c'.buff }
      → length c'.buff ≡ max_client_buff_len
      → OnlyBuff p c w (record w { log = l; heap = insert p c' w.heap })
  stored-OnlyBuff w p c c' l same size = record {
    server_kept = refl;
    next_kept = refl;
    posts_kept = refl;
    others_kept = λ q n. lookup-insert p q c' w.heap ∙ simp n;
    buff = c'.buff;
    full_size = size;
    object_kept = ground (arith, lookup-insert p p c' w.heap) ∙ ap (λ z. some z) same;
  }

  pub after-Talks :
      (w v : World) (addr : Addr) (p : ℕ) (c : Client) (k : OnlyBuff p c w v)
      → Talks e w addr p c
      → Talks e v addr p (record c { buff = k.buff })
  unfolding get_kcp_conv_id
  after-Talks w v addr p c k t = record {
    entry = rw k.server_kept t.entry;
    object = k.object_kept;
    past = t.past;
    room = record { full_size = k.full_size; at_start = t.room.at_start };
  }

  -- With KCP on, where finitely many datagrams and messages wait and the library keeps to the room it is
  -- given: for a peer that has a client whose conversation stands and whose buffer is empty, any number
  -- of its datagrams are all handled without a fault, and afterwards the server, the posted operations
  -- and every other client are as they were, and of the peer's client only the contents of the buffer
  -- are new; unless some reading for the client fills the buffer. The bug: then it writes past the end.
  pub deliver_all-Delivered :
      (quiet : Quiet e) (fits : KcpRecvFits e) (w : World) (addr : Addr) (p : ℕ) (c : Client)
      (bss : List Bytes)
      → e.build.with_kcp ≡ true
      → Talks e w addr p c
      → Delivered p c w (deliver_all e addr bss w)
  unfolding deliver_all
  deliver_all-Delivered quiet fits w addr p c [] on t = inl (OnlyBuff-refl p c w t.object t.room)
  deliver_all-Delivered quiet fits w addr p c (bs ∷ bss) on t =
      elim (client_recv-Ends e quiet fits c (some bs) w.log on t.past t.room) [
        | inl ends ↦
            let (r, got, (same, size)) = Returns-ok _ (client_recv e c (some bs) w.log) ends in
            let v : World = record w { log = r.1; heap = insert p r.0 w.heap } in
            let k : OnlyBuff p c w v = stored-OnlyBuff w p c r.0 r.1 same size in
            rw (on_recv_by_addr-ok w bs addr p c r.0 r.1 t got)
              (elim (deliver_all-Delivered quiet fits v addr p (record c { buff = k.buff }) bss on
                (after-Talks w v addr p c k t)) [
                  | inl x ↦ inl (
                      Returns-map _ _ (deliver_all e addr bss v) x
                        (λ r' k'. OnlyBuff-trans p c k.buff w v r'.1 k k'))
                  | inr x ↦ inr x
                ])
        | inr (b, l, filled, f) ↦ inr (
          rw (on_recv_by_addr-fault w bs addr p c out_of_bounds t f) refl,
          (some bs, c.buff, w.log, b, l, filled),
        )
      ]
