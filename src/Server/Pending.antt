-- ===== src/Server/Pending.antt =====
-- Posted reads on Windows: what `Update` of the dispatcher makes of the finished ones.
use udp_kcp_plugin.Base.{
  ℕ, ◌≡◌, ◌≢◌, refl, sym, some, List, [], ◌∷◌, map, arith, length, ◌==◌, inl, inr, Bool-cases,
}
use udp_kcp_plugin.Base.Assoc.{lookup, Below, lookup-insert, Below-insert, lookup-Below}
use udp_kcp_plugin.Base.Tame.{Safe, Safe-chain}
use udp_kcp_plugin.System.{Log, UnitRef, Completion}
use udp_kcp_plugin.Dispatch.{ene_read}
use udp_kcp_plugin.Dispatch.Windows.{Posts, WinInfo, WinEvent, translate_completion, translate_all}
use udp_kcp_plugin.Server.{World}
use udp_kcp_plugin.Server.Attach.{IsLive}

abbrev NotIn : ℕ → List ℕ → Type 0
NotIn i [] = Unit {0}
NotIn i (j ∷ js) = (i ≢ j) × NotIn i js

-- Operation `i` is a read of a unit that has its object.
abbrev pub IsRead : World → Posts → ℕ → Type 0
IsRead w p i =
    (x : WinInfo) × (lookup i p.infos ≡ some x) × (x.evt ≡ ene_read) × IsLive w x.userdata

-- Each operation is such a read, and no number comes twice.
abbrev pub AllRead : World → Posts → List ℕ → Type 0
AllRead w p [] = Unit {0}
AllRead w p (i ∷ is) = IsRead w p i × NotIn i is × AllRead w p is

abbrev pub finished : List Completion → List ℕ
finished cs = map (λ (c : Completion). c.info) cs

abbrev pub entries_of : List WinEvent → List ℕ
entries_of evs = map (λ (ev : WinEvent). ev.info) evs

-- What was posted beside operation `i` is posted still.
abbrev pub Others : ℕ → Posts → Posts → Type 0
Others i p p' =
    (j : ℕ) (x : WinInfo) → i ≢ j → lookup j p.infos ≡ some x → lookup j p'.infos ≡ some x

pub AllRead-Others :
    (w w' : World) (p p' : Posts) (i : ℕ) (js : List ℕ)
    → ((u : UnitRef) → IsLive w u → IsLive w' u)
    → Others i p p'
    → NotIn i js
    → AllRead w p js
    → AllRead w' p' js
AllRead-Others w w' p p' i [] live f n h = tt
AllRead-Others w w' p p' i (j ∷ js) live f (n, ns) ((x, e, r, l), d, h) =
    ((x, f j x n e, r, live x.userdata l), d, AllRead-Others w w' p p' i js live f ns h)

pub AllRead-mono :
    (w w' : World) (p p' : Posts) (js : List ℕ)
    → ((u : UnitRef) → IsLive w u → IsLive w' u)
    → ((j : ℕ) (x : WinInfo) → lookup j p.infos ≡ some x → lookup j p'.infos ≡ some x)
    → AllRead w p js
    → AllRead w' p' js
AllRead-mono w w' p p' [] live f h = tt
AllRead-mono w w' p p' (j ∷ js) live f ((x, e, r, l), d, h) =
    ((x, f j x e, r, live x.userdata l), d, AllRead-mono w w' p p' js live f h)

-- What one completion leaves: its entry names its operation, which is a read still.
abbrev Translated : World → ℕ → Posts → (Posts × WinEvent) × Log → Type 0
Translated w i p r =
    Below r.0.0.next r.0.0.infos × Others i p r.0.0 × IsRead w r.0.0 i × (r.0.1.info ≡ i)

translate_completion-Safe :
    (w : World) (c : Completion) (old : WinEvent) (p : Posts) (l : Log)
    → Below p.next p.infos
    → IsRead w p c.info
    → Safe (Translated w c.info p) (translate_completion c old p l)
unfolding translate_completion
translate_completion-Safe w c old p l b (x, e, r, live) = elim (Bool-cases (length c.bytes == 0)) [
  | inl z ↦ simp z (b, (λ j y n h. h), (x, e, r, live), refl)
  | inr z ↦
      let x' : WinInfo = record {
        evt = ene_read;
        userdata = x.userdata;
        len = length c.bytes;
        buf = c.bytes;
        addr = c.from;
      } in
      simp (z, e, r)
        (
          Below-insert p.next c.info x' p.infos (lookup-Below p.next c.info x p.infos b e) b,
          (λ j y n h. ground (arith, lookup-insert c.info j x' p.infos)),
          (x', ground (arith, lookup-insert c.info c.info x' p.infos), refl, live),
          refl,
        )
]

abbrev pub AllTranslated : World → List ℕ → Posts → (Posts × List WinEvent) × Log → Type 0
AllTranslated w is p r =
    Below r.0.0.next r.0.0.infos
    × ((i : ℕ) (x : WinInfo)
        → NotIn i is
        → lookup i p.infos ≡ some x
        → lookup i r.0.0.infos ≡ some x)
    × AllRead w r.0.0 is
    × (entries_of r.0.1 ≡ is)

pub translate_all-Safe :
    (w : World) (cs : List Completion) (olds : List WinEvent) (p : Posts) (l : Log)
    → Below p.next p.infos
    → AllRead w p (finished cs)
    → Safe (AllTranslated w (finished cs) p) (translate_all cs olds p l)
unfolding translate_all
translate_all-Safe w [] olds p l b h = (b, (λ i x n e. e), tt, refl)
translate_all-Safe w (c ∷ cs) [] p l b h = λ k. absurd (cc)
translate_all-Safe w (c ∷ cs) (old ∷ olds) p l b (r, n, h) =
    Safe-chain (Translated w c.info p) (AllTranslated w (c.info ∷ finished cs) p)
      (translate_completion c old p l) _ (translate_completion-Safe w c old p l b r)
      λ (p', ev) l' (b', f, r', i).
        Safe-chain (AllTranslated w (finished cs) p') (AllTranslated w (c.info ∷ finished cs) p)
          (translate_all cs olds p' l') _
          (translate_all-Safe w cs olds p' l' b'
            (AllRead-Others w w p p' c.info (finished cs) (λ u k. k) f n h))
          λ (p'', evs) l'' (b'', g, hs, is). (
            b'',
            (λ j x m e. g j x m.1 (f j x (λ q. m.0 (sym q)) e)),
            ((r'.0, g c.info r'.0 n r'.1, r'.2, r'.3), n, hs),
            rw (i, is),
          )
