-- ===== src/Server/Posting.antt =====
-- Posting overlapped operations on Windows: the operations that were there stay.
use udp_kcp_plugin.Base.{ℕ, suc, Bool, arith, ◌==◌, ◌/◌, ◌%◌}
use udp_kcp_plugin.Base.Assoc.{lookup, Below-mono, lookup-Below}
use udp_kcp_plugin.Base.Tame.{Safe, Safe-chain, Safe-if, Safe-mono, Tame}
use udp_kcp_plugin.System.{Env, Log, UnitRef, Handle}
use udp_kcp_plugin.Dispatch.{
  NetEventOp, add, mod_, del, NetProtocolType, udp, tcp, ene_read, ene_write,
}
use udp_kcp_plugin.Dispatch.Windows.{
  Posts, new_info, start_read, start_write, ctl_write, ctl_read_write, ctl_event_windows,
}
use udp_kcp_plugin.Server.Sound.{Grows, Grows-trans}

-- What a call that posts operations leaves of them.
abbrev pub Grew : Posts → (Posts × Bool) × Log → Type 0
Grew p r = Grows p r.0.0

new_info-Grows : (p : Posts) (ev : ℕ) (u : UnitRef) → Grows p (new_info p ev u)
unfolding new_info lookup
new_info-Grows p ev u b = (
  (omega arith, Below-mono p.next (suc p.next) p.infos (omega arith) b),
  λ i x h. ground (arith, lookup-Below p.next i x p.infos b h),
)

module _ (e : Env) where
  start_read-Tame : (t : NetProtocolType) (h : Handle) (i : ℕ) → Tame (start_read e t h i)
  unfolding start_read
  start_read-Tame udp h i l = tt
  start_read-Tame tcp h i l = tt

  start_write-Tame : (t : NetProtocolType) (h : Handle) (i : ℕ) → Tame (start_write e t h i)
  unfolding start_write
  start_write-Tame udp h i l = tt
  start_write-Tame tcp h i l = tt

  ctl_write-Safe :
      (h : Handle) (ev : ℕ) (u : UnitRef) (t : NetProtocolType) (p : Posts) (l : Log)
      → Safe (Grew p) (ctl_write e h ev u t p l)
  unfolding ctl_write
  ctl_write-Safe h ev u t p l =
      Safe-if (Grew p) (ev / 2 % 2 == 1) _ _ l
        (Safe-chain (λ r. Unit {0}) (Grew p) (start_write e t h p.next l) _
          (start_write-Tame t h p.next l) λ b l' _. new_info-Grows p ene_write u)
        (λ b. (b, λ i x k. k))

  ctl_read_write-Safe :
      (h : Handle) (ev : ℕ) (u : UnitRef) (t : NetProtocolType) (p : Posts) (l : Log)
      → Safe (Grew p) (ctl_read_write e h ev u t p l)
  unfolding ctl_read_write
  ctl_read_write-Safe h ev u t p l =
      let q = new_info p ene_read u in
      Safe-if (Grew p) (ev % 2 == 1) _ _ l
        (Safe-chain (λ r. Unit {0}) (Grew p) (start_read e t h p.next l) _
          (start_read-Tame t h p.next l)
          λ b l' _.
            Safe-if (Grew p) b _ _ l'
              (Safe-mono (Grew q) (Grew p) _ (ctl_write-Safe h ev u t q l')
                λ r k. Grows-trans p q r.0.0 (new_info-Grows p ene_read u) k)
              (new_info-Grows p ene_read u))
        (ctl_write-Safe h ev u t p l)

  pub ctl_event_windows-Safe :
      (op : NetEventOp) (h : Handle) (ev : ℕ) (u : UnitRef) (t : NetProtocolType) (p : Posts)
      (l : Log)
      → Safe (Grew p) (ctl_event_windows e op h ev u t p l)
  unfolding ctl_event_windows
  ctl_event_windows-Safe add h ev u t p l = ctl_read_write-Safe h ev u t p l
  ctl_event_windows-Safe mod_ h ev u t p l = ctl_read_write-Safe h ev u t p l
  ctl_event_windows-Safe del h ev u t p l = λ b. (b, λ i x k. k)
