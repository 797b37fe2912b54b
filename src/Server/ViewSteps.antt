-- ===== src/Server/ViewSteps.antt =====
-- What a change of the heap or the map is in the directory.
use udp_kcp_plugin.Base.{
  ℕ, ◌≡◌, ◌∙◌, refl, sym, ap, subst, fun_ext, inl, inr, true, false, Bool-cases, Option,
  Option-cases, none, some, some-injective, List, [], ◌∷◌, ◌++◌, ◌==◌, arith, if◌then◌else◌,
}
use udp_kcp_plugin.Base.Assoc.{lookup-append, lookup, insert, Below, lookup-Below}
use udp_kcp_plugin.Address.{make_unique_id}
use udp_kcp_plugin.Directory.{Steps, stays, then_step, settles, admits}
use udp_kcp_plugin.Directory.Laws.{Steps-eq}
use udp_kcp_plugin.Client.{Client}
use udp_kcp_plugin.Server.View.{
  session, session_of, session_at, sessions, Proceeds, points, session_at-insert,
}
use udp_kcp_plugin.Server.Sound.{Entries, lookup-Entries}

-- The object at `p` is the entry of no other identity than its own.
points-id :
    (heap : List (ℕ × Client)) (m : List (ℕ × ℕ)) (k p : ℕ) (c : Client)
    → Entries heap m
    → lookup p heap ≡ some c
    → points (lookup k m) p ≡ true
    → c.big_id ≡ k
points-id heap m k p c es h t = elim (Option-cases (lookup k m)) [
  | inl n ↦ absurd (ground arith)
  | inr (q, e) ↦
      let (d, found, id) = lookup-Entries heap m k q es e in
      let here : p ≡ q = ground arith in
      let same : some c ≡ some d = sym h ∙ ap (λ z. lookup z heap) here ∙ found in
      ap (λ (z : Client). z.big_id) (some-injective c d same) ∙ id
]

points-session :
    (heap : List (ℕ × Client)) (o : Option ℕ) (p : ℕ) (c : Client)
    → lookup p heap ≡ some c
    → points o p ≡ true
    → session_at heap o ≡ some (session c)
points-session heap none p c h t = absurd (cc)
points-session heap (some q) p c h t =
    let here : q ≡ p = ground arith in ap session_of (ap (λ z. lookup z heap) here ∙ h)

-- A member function has settled the conversation of the object at `p`, or left the session alone.
pub stored-Steps :
    (heap : List (ℕ × Client)) (m : List (ℕ × ℕ)) (p : ℕ) (c c' : Client)
    → Entries heap m
    → lookup p heap ≡ some c
    → Proceeds c c'
    → Steps (sessions heap m) (sessions (insert p c' heap) m)
stored-Steps heap m p c c' es h (i, inl same) =
    Steps-eq (sessions heap m) (sessions (insert p c' heap) m) (
      fun_ext λ k.
        session_at-insert heap p c' (lookup k m) ∙ elim (Bool-cases (points (lookup k m) p)) [
          | inl t ↦ simp (t, same) (sym (points-session heap (lookup k m) p c h t))
          | inr f ↦ simp f refl
        ])
stored-Steps heap m p c c' es h (i, inr x) = elim (Bool-cases (points (lookup c.big_id m) p)) [
  | inl t ↦ then_step stays (
      settles c.big_id (session c) (session c') (points-session heap (lookup c.big_id m) p c h t) x
        (fun_ext λ k.
          session_at-insert heap p c' (lookup k m) ∙ elim (Bool-cases (points (lookup k m) p)) [
            | inl y ↦ let own = points-id heap m k p c es h y in ground arith
            | inr f ↦ elim (Bool-cases (c.big_id == k)) [
              | inl y ↦
                  let own : c.big_id ≡ k = ground arith in absurd (ground (arith, rw own at t))
              | inr n ↦ simp (f, n) refl
            ]
          ]))
  | inr f ↦ Steps-eq (sessions heap m) (sessions (insert p c' heap) m) (
      fun_ext λ k.
        session_at-insert heap p c' (lookup k m) ∙ elim (Bool-cases (points (lookup k m) p)) [
          | inl y ↦
              let own = points-id heap m k p c es h y in
              let off : points (lookup k m) p ≡ false =
                subst (λ z. points (lookup z m) p ≡ false) own f in
              absurd (ground arith)
          | inr n ↦ simp n refl
        ])
]

-- Where every object of the map is there still, the directory is as it was.
pub agree-session_at :
    (heap heap' : List (ℕ × Client)) (m : List (ℕ × ℕ)) (k : ℕ)
    → Entries heap m
    → ((q : ℕ) (c : Client) → lookup q heap ≡ some c → lookup q heap' ≡ some c)
    → session_at heap' (lookup k m) ≡ session_at heap (lookup k m)
agree-session_at heap heap' m k es f = elim (Option-cases (lookup k m)) [
  | inl n ↦ rw n refl
  | inr (q, e) ↦
      let (c, found, _) = lookup-Entries heap m k q es e in
      rw e (ap session_of (f q c found ∙ sym found))
]

-- A client as the constructor leaves it: its identity is that of its address, and it has neither a type
-- nor a conversation.
pub record IsBlank (c : Client) : Type 0 where
  pub own_id : c.big_id ≡ make_unique_id c.addr
  pub no_type : c.kind ≡ none
  pub no_conv : c.conv_id ≡ 0

-- The identities of the map, and one more.
appended-session :
    (heap : List (ℕ × Client)) (m : List (ℕ × ℕ)) (n k : ℕ) (c : Client)
    → Entries heap m
    → Below n heap
    → lookup c.big_id m ≡ none
    → sessions ((n, c) ∷ heap) (m ++ ((c.big_id, n) ∷ [])) k
      ≡ (if c.big_id == k then some (session c) else sessions heap m k)
unfolding lookup
appended-session heap m n k c es b free = elim (Option-cases (lookup k m)) [
  | inl e ↦ elim (Bool-cases (c.big_id == k)) [
    | inl t ↦ rw (lookup-append m c.big_id n k) (ground arith)
    | inr f ↦ rw (lookup-append m c.big_id n k) (ground arith)
  ]
  | inr (q, e) ↦
      let (d, found, _) = lookup-Entries heap m k q es e in
      let other : (c.big_id == k) ≡ false = ground arith in
      let old = lookup-Below n q d heap b found in rw (lookup-append m c.big_id n k) (ground arith)
]

-- A new object is the entry of its identity.
pub admitted-Steps :
    (heap : List (ℕ × Client)) (m : List (ℕ × ℕ)) (n : ℕ) (c : Client)
    → Entries heap m
    → Below n heap
    → lookup c.big_id m ≡ none
    → IsBlank c
    → Steps (sessions heap m) (sessions ((n, c) ∷ heap) (m ++ ((c.big_id, n) ∷ [])))
admitted-Steps heap m n c es b free v = then_step stays (
    admits c.sock c.addr (rw (sym v.own_id) (rw free refl)) (
      fun_ext
        λ k. appended-session heap m n k c es b free ∙ simp (v.own_id, v.no_type, v.no_conv) refl))
