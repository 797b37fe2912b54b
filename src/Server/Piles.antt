-- ===== src/Server/Piles.antt =====
-- On Windows the reads of a client pile up: every datagram of its peer that comes to the server's own
-- socket posts one more.
use udp_kcp_plugin.Base.{
  ℕ, zero, suc, ◌+◌, ◌≡◌, ◌⊎◌, ◌∙◌, ap, refl, inl, inr, Bool, Bool-cases, true, false, some, List,
  [], ◌∷◌, length, arith,
}
use udp_kcp_plugin.Base.Assoc.{lookup, insert, lookup-insert}
use udp_kcp_plugin.Base.Outcome.{Outcome, ok, fault, out_of_bounds, Prog, pure, ◌>>◌}
use udp_kcp_plugin.Base.Hoare.{Returns, Returns-ok, Returns-map}
use udp_kcp_plugin.System.{
  Bytes, Handle, Addr, Log, UnitRef, client, Env, KcpRecvFits, posted, recv_from_post,
}
use udp_kcp_plugin.Plug.Messages.{Quiet}
use udp_kcp_plugin.Client.{Client, client_recv, get_kcp_conv_id, max_client_buff_len}
use udp_kcp_plugin.Client.Ends.{Kept, client_recv-Ends}
use udp_kcp_plugin.Dispatch.{mod_, ene_read, udp}
use udp_kcp_plugin.Dispatch.Windows.{
  Posts, new_info, start_read, ctl_write, ctl_read_write, ctl_event_windows,
}
use udp_kcp_plugin.Server.{World, lift, load, get, get_handle, set_posts, ctl_udp_event}
use udp_kcp_plugin.Server.Peers.{on_recv_by_addr, rearm, server_recv_windows}
use udp_kcp_plugin.Server.Session.{Talks, Fills, on_recv_by_addr-ok, on_recv_by_addr-fault}

-- So many more reads are posted for a client.
unfoldable pub piled : ℕ → ℕ → Posts → Posts
unfolding new_info
piled p zero ps = ps
piled p (suc n) ps = piled p n (new_info ps ene_read (client p))

pub length-piled : (p n : ℕ) (ps : Posts) → length (piled p n ps).infos ≡ length ps.infos + n
unfolding piled new_info
length-piled p zero ps = omega arith
length-piled p (suc n) ps = omega (arith, length-piled p n (new_info ps ene_read (client p)))

-- The datagrams of one peer that finish reads of the server's socket, in their order.
unfoldable pub deliver_all_windows : Env → Addr → List Bytes → Prog World (Unit {0})
unfolding server_recv_windows
deliver_all_windows e addr [] = pure tt
deliver_all_windows e addr (bs ∷ bss) =
    server_recv_windows e bs addr >> deliver_all_windows e addr bss

module _ (e : Env) where
  -- The read is posted, and if this fails its object stays all the same.
  ctl_event_windows-read :
      (h : Handle) (u : UnitRef) (ps : Posts) (l : Log)
      → (done : Bool) × (ctl_event_windows e mod_ h ene_read u udp ps l
          ≡ ok ((new_info ps ene_read u, done), posted recv_from_post h ps.next done ∷ l))
  unfolding ctl_event_windows ctl_read_write ctl_write start_read
  ctl_event_windows-read h u ps l = elim (Bool-cases (e.os.post l recv_from_post h ps.next)) [
    | inl t ↦ (true, simp t refl)
    | inr f ↦ (false, simp f refl)
  ]

  rearm-piles :
      (w : World) (p : ℕ) (c : Client)
      → e.build.is_linux ≡ false
      → lookup p w.heap ≡ some c
      → (done : Bool) × (rearm e (some p) w
          ≡ ok (
            tt,
            record w {
              log = posted recv_from_post c.sock w.posts.next done ∷ w.log;
              posts = new_info w.posts ene_read (client p);
            },
          ))
  unfolding rearm ctl_udp_event get_handle load get lift set_posts
  rearm-piles w p c off h =
      let (done, got) = ctl_event_windows-read c.sock (client p) w.posts w.log in
      (done, ground (arith, got))

  -- One datagram: the client's buffer is new, and last one more read is posted; or the buffer is overrun.
  abbrev Piling : World → ℕ → Client → Outcome (Unit {0} × World) → Type 0
  Piling w p c r =
      ((l : Log) × (done : Bool) × (buff : Bytes) × (length buff ≡ max_client_buff_len)
        × (r
            ≡ ok (
              tt,
              record w {
                log = posted recv_from_post c.sock w.posts.next done ∷ l;
                heap = insert p (record c { buff = buff }) w.heap;
                posts = new_info w.posts ene_read (client p);
              },
            )))
      ⊎ ((r ≡ fault out_of_bounds) × Fills e c)

  server_recv_windows-Piling :
      (quiet : Quiet e) (fits : KcpRecvFits e) (w : World) (bs : Bytes) (addr : Addr) (p : ℕ)
      (c : Client)
      → e.build.with_kcp ≡ true
      → e.build.is_linux ≡ false
      → Talks e w addr p c
      → Piling w p c (server_recv_windows e bs addr w)
  unfolding server_recv_windows
  server_recv_windows-Piling quiet fits w bs addr p c on off t =
      elim (client_recv-Ends e quiet fits c (some bs) w.log on t.past t.room) [
        | inl ends ↦
            let (r, got, (same, size)) =
              Returns-ok (Kept c) (client_recv e c (some bs) w.log) ends in
            let c' : Client = record c { buff = r.0.buff } in
            let v : World = record w { log = r.1; heap = insert p c' w.heap } in
            let here : lookup p v.heap ≡ some c' = ground (arith, lookup-insert p p c' w.heap) in
            let (done, rearmed) = rearm-piles v p c' off here in
            let first : on_recv_by_addr e bs addr w ≡ ok (some p, v) =
              on_recv_by_addr-ok e w bs addr p c r.0 r.1 t got
              ∙ ap (λ (d : Client). ok (some p, record w { log = r.1; heap = insert p d w.heap }))
                  same in
            inl (r.1, done, r.0.buff, size, rw first rearmed)
        | inr (b, l, filled, f) ↦ inr (
          rw (on_recv_by_addr-fault e w bs addr p c out_of_bounds t f) refl,
          (some bs, c.buff, w.log, b, l, filled),
        )
      ]

  again :
      (w : World) (addr : Addr) (p : ℕ) (c : Client) (buff : Bytes) (l : Log)
      → Talks e w addr p c
      → length buff ≡ max_client_buff_len
      → Talks e
          (record w {
            log = l;
            heap = insert p (record c { buff = buff }) w.heap;
            posts = new_info w.posts ene_read (client p);
          })
          addr
          p
          (record c { buff = buff })
  unfolding get_kcp_conv_id
  again w addr p c buff l t size = record {
    entry = t.entry;
    object = ground (arith, lookup-insert p p (record c { buff = buff }) w.heap);
    past = t.past;
    room = record { full_size = size; at_start = t.room.at_start };
  }

  -- The datagrams in their order, each of which ends with a call that posts one more read of the
  -- socket, for a new object.
  abbrev pub Posted : Addr → ℕ → Handle → World → List Bytes → World → Type 0
  Posted addr p h w [] u = u ≡ w
  Posted addr p h w (bs ∷ bss) u =
      (v : World) × (l : Log) × (done : Bool) × (server_recv_windows e bs addr w ≡ ok (tt, v))
      × (v.log ≡ posted recv_from_post h w.posts.next done ∷ l)
      × (v.posts ≡ new_info w.posts ene_read (client p))
      × Posted addr p h v bss u

  -- The bug: on Windows with KCP on, where finitely many datagrams and messages wait and the library
  -- keeps to the room it is given, and for a peer that has a client whose conversation stands and whose
  -- buffer is empty: every datagram of the peer that finishes a read of the server's own socket ends
  -- with a call of WSARecvFrom on the client's socket, for a new NetEventInfo object that stays
  -- whether or not the call succeeds, whatever is posted for the client already; so that after any
  -- number of such datagrams there are exactly as many new objects, numbered in their order; unless
  -- some reading for the client fills the buffer, where the program writes past its end.
  pub deliver_all_windows-piled :
      (quiet : Quiet e) (fits : KcpRecvFits e) (w : World) (addr : Addr) (p : ℕ) (c : Client)
      (bss : List Bytes)
      → e.build.with_kcp ≡ true
      → e.build.is_linux ≡ false
      → Talks e w addr p c
      → Returns
          (λ (r : Unit {0} × World).
            Posted addr p c.sock w bss r.1
            × (r.1.posts ≡ piled p (length bss) w.posts)
            × (length r.1.posts.infos ≡ length w.posts.infos + length bss))
          (deliver_all_windows e addr bss w)
        ⊎ ((deliver_all_windows e addr bss w ≡ fault out_of_bounds) × Fills e c)
  unfolding deliver_all_windows piled
  deliver_all_windows-piled quiet fits w addr p c [] on off t = inl (refl, refl, omega arith)
  deliver_all_windows-piled quiet fits w addr p c (bs ∷ bss) on off t =
      elim (server_recv_windows-Piling quiet fits w bs addr p c on off t) [
        | inl (l, done, buff, size, got) ↦
            let c' : Client = record c { buff = buff } in
            let l' : Log = posted recv_from_post c.sock w.posts.next done ∷ l in
            let v : World = record w {
              log = l';
              heap = insert p c' w.heap;
              posts = new_info w.posts ene_read (client p);
            } in
            rw got
              (elim (deliver_all_windows-piled quiet fits v addr p c' bss on off
                (again w addr p c buff l' t size)) [
                  | inl x ↦ inl (
                      Returns-map _ _ (deliver_all_windows e addr bss v) x (λ r k. (
                        (v, l, done, refl, refl, refl, k.0),
                        k.1,
                        ap (λ (z : Posts). length z.infos) k.1
                            ∙ length-piled p (suc (length bss)) w.posts,
                      )))
                  | inr x ↦ inr x
                ])
        | inr (f, x) ↦ inr (rw f refl, x)
      ]
