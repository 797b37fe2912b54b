-- ===== src/Base/Assoc.antt =====
-- Association lists with numbers for keys: the client map, and the objects that are allocated.
use Prim.Native.Nat.{ℕ, ◌≤◌, ◌<◌}
use mathlib.Core.Path.{◌≡◌}
use mathlib.Core.Option.{Option, none, some}
use mathlib.Core.List.{List, [], ◌∷◌, ◌++◌}
use native.Mathlib.Omega.{arith}
use udp_kcp_plugin.Base.Tests.{is_set, ◌==◌, if◌then◌else◌}

module _ {ℓ} {V : Type ℓ} where
  unfoldable pub lookup : ℕ → List (ℕ × V) → Option V
  lookup k [] = none
  lookup k ((j, v) ∷ m) = if j == k then some v else lookup k m

  unfoldable pub insert : ℕ → V → List (ℕ × V) → List (ℕ × V)
  insert k v [] = (k, v) ∷ []
  insert k v ((j, w) ∷ m) = if j == k then (k, v) ∷ m else (j, w) ∷ insert k v m

  unfoldable pub erase : ℕ → List (ℕ × V) → List (ℕ × V)
  erase k [] = []
  erase k ((j, w) ∷ m) = if j == k then erase k m else (j, w) ∷ erase k m

  pub lookup-insert :
      (k j : ℕ) (v : V) (m : List (ℕ × V))
      → lookup j (insert k v m) ≡ (if k == j then some v else lookup j m)
  unfolding lookup insert
  lookup-insert k j v [] = ground arith
  lookup-insert k j v ((i, w) ∷ m) = ground (arith, lookup-insert k j v m)

  pub lookup-erase :
      (k j : ℕ) (m : List (ℕ × V)) → lookup j (erase k m) ≡ (if k == j then none else lookup j m)
  unfolding lookup erase
  lookup-erase k j [] = ground arith
  lookup-erase k j ((i, w) ∷ m) = ground (arith, lookup-erase k j m)

  -- Looking up in a map with one more entry at its end.
  pub lookup-append :
      (m : List (ℕ × V)) (j : ℕ) (v : V) (k : ℕ)
      → lookup k (m ++ ((j, v) ∷ []))
        ≡ (if is_set (lookup k m) then lookup k m else if j == k then some v else none)
  unfolding lookup
  lookup-append [] j v k = ground arith
  lookup-append ((i, w) ∷ m) j v k = ground (arith, lookup-append m j v k)

  -- Every key is below a bound, as the numbers of the objects allocated so far are.
  abbrev pub Below : ℕ → List (ℕ × V) → Type 0
  Below n [] = Unit {0}
  Below n ((k, v) ∷ m) = (k < n) × Below n m

  pub Below-mono : (m n : ℕ) (l : List (ℕ × V)) → m ≤ n → Below m l → Below n l
  Below-mono m n [] h b = tt
  Below-mono m n ((k, v) ∷ l) h b = (omega arith, Below-mono m n l h b.1)

  pub Below-insert :
      (n k : ℕ) (v : V) (l : List (ℕ × V)) → k < n → Below n l → Below n (insert k v l)
  unfolding insert
  Below-insert n k v [] h b = (h, tt)
  Below-insert n k v ((j, w) ∷ l) h b = ground (arith, Below-insert n k v l h b.1)

  pub Below-erase : (n k : ℕ) (l : List (ℕ × V)) → Below n l → Below n (erase k l)
  unfolding erase
  Below-erase n k [] b = tt
  Below-erase n k ((j, w) ∷ l) b = ground (arith, Below-erase n k l b.1)

  pub lookup-Below : (n k : ℕ) (v : V) (m : List (ℕ × V)) → Below n m → lookup k m ≡ some v → k < n
  unfolding lookup
  lookup-Below n k v [] b h = absurd (cc)
  lookup-Below n k v ((j, w) ∷ m) b h = ground (arith, lookup-Below n k v m b.1)
