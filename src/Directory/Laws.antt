-- ===== src/Directory/Laws.antt =====
-- What holds along the steps of the directory.
use udp_kcp_plugin.Base.{
  ℕ, ◌≡◌, ◌≢◌, ◌⊎◌, ◌∙◌, ◌==◌, refl, inl, inr, some, some-injective, arith, Bool-cases, sym, ap,
  subst,
}
use udp_kcp_plugin.Address.{make_unique_id}
use udp_kcp_plugin.Address.Laws.{make_unique_id-lt}
use udp_kcp_plugin.Client.{accepted}
use udp_kcp_plugin.Directory.{
  Session, Directory, nobody, put, Settles, offers, learns, Step, admits, settles, Steps, stays,
  then_step,
}

pub Steps-trans : (c d f : Directory) → Steps c d → Steps d f → Steps c f
Steps-trans c d _ h stays = h
Steps-trans c d f h (then_step {d'} {d''} k s) = then_step (Steps-trans c d d' h k) s

pub Steps-eq : (d d' : Directory) → d' ≡ d → Steps d d'
Steps-eq d d' h = rw h stays

-- A session that has its conversation keeps it, its socket, its address and its role.
abbrev pub Keeps : ℕ → Session → Directory → Type 0
Keeps id s d = d id ≡ some s

Settles-conv : (id : ℕ) (s s' : Session) → Settles id s s' → s.conv ≡ 0
Settles-conv id s s' (offers r c h) = c
Settles-conv id s s' (learns n r c h) = c

Step-Keeps :
    (d d' : Directory) (id : ℕ) (s : Session)
    → s.conv ≢ 0
    → Step d d'
    → Keeps id s d
    → Keeps id s d'
Step-Keeps d d' id s n (admits sock addr free h) k = elim (Bool-cases (make_unique_id addr == id)) [
  | inl t ↦ absurd (ground arith)
  | inr f ↦ rw h (simp f k)
]
Step-Keeps d d' id s n (settles j t t' here x h) k = elim (Bool-cases (j == id)) [
  | inl e ↦
      let same : some t ≡ some s = ground arith in
      absurd
        (n (sym (ap (λ (z : Session). z.conv) (some-injective t s same)) ∙ Settles-conv j t t' x))
  | inr f ↦ rw h (simp f k)
]

pub Steps-Keeps :
    (d d' : Directory) (id : ℕ) (s : Session)
    → s.conv ≢ 0
    → Steps d d'
    → Keeps id s d
    → Keeps id s d'
Steps-Keeps d _ id s n stays k = k
Steps-Keeps d d'' id s n (then_step {d'} h x) k =
    Step-Keeps d' d'' id s n x (Steps-Keeps d d' id s n h k)

-- Every session stands under the identity of its address, was begun by the peer, and has that identity
-- for its conversation or none.
abbrev pub IsConsistent : Directory → Type 0
IsConsistent d =
    (id : ℕ) (s : Session)
    → d id ≡ some s
    → (make_unique_id s.addr ≡ id) × (s.role ≡ accepted) × ((s.conv ≡ 0) ⊎ (s.conv ≡ id))

nobody-IsConsistent : IsConsistent nobody
nobody-IsConsistent id s h = absurd (cc)

abbrev Fits : ℕ → Session → Type 0
Fits id s = (make_unique_id s.addr ≡ id) × (s.role ≡ accepted) × ((s.conv ≡ 0) ⊎ (s.conv ≡ id))

put-Fits :
    (d d' : Directory) (j : ℕ) (t : Session)
    → IsConsistent d
    → d' ≡ put j t d
    → Fits j t
    → IsConsistent d'
put-Fits d d' j t c h f id s e = elim (Bool-cases (j == id)) [
  | inl y ↦
      let same : some t ≡ some s = sym (simp y refl) ∙ sym (ap (λ (x : Directory). x id) h) ∙ e in
      let at : j ≡ id = ground arith in
      subst (Fits id) (some-injective t s same) (subst (λ k. Fits k t) at f)
  | inr n ↦ c id s (sym (simp n refl) ∙ sym (ap (λ (x : Directory). x id) h) ∙ e)
]

Settles-Fits : (id : ℕ) (s s' : Session) → Settles id s s' → Fits id s → Fits id s'
Settles-Fits id s s' (offers r c h) (a, _, _) =
    rw h (a, r, inr (omega (arith, a, make_unique_id-lt s.addr)))
Settles-Fits id s s' (learns n r c h) (a, r', _) = absurd (ground arith)

pub Steps-IsConsistent : (d d' : Directory) → Steps d d' → IsConsistent d → IsConsistent d'
Steps-IsConsistent d _ stays c = c
Steps-IsConsistent d d'' (then_step {d'} h (admits sock addr free e)) c =
    put-Fits d' d'' (make_unique_id addr) _ (Steps-IsConsistent d d' h c) e (refl, refl, inl refl)
Steps-IsConsistent d d'' (then_step {d'} h (settles id s s' here x e)) c =
    let before = Steps-IsConsistent d d' h c in
    put-Fits d' d'' id s' before e (Settles-Fits id s s' x (before id s here))
