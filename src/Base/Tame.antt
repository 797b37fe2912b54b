-- ===== src/Base/Tame.antt =====
-- Statements that rule out one fault, the use of an object that is not allocated: `Safe` says that a
-- result has a property where there is one, and that the fault, if there is one, is another.
use mathlib.Core.Path.{◌≡◌, refl}
use mathlib.Core.Logic.{◌≢◌}
use mathlib.Core.Bool.{Bool, true, false}
use udp_kcp_plugin.Base.Tests.{if◌then◌else◌}
use udp_kcp_plugin.Base.Outcome.{dead_pointer, Outcome, ok, fault, Prog, chain, ◌>>=◌}
use udp_kcp_plugin.Base.Hoare.{Returns, IfReturns}

abbrev pub Safe : {A : Type 0} → (A → Type 0) → Outcome A → Type 0
Safe P (ok a) = P a
Safe P (fault f) = f ≢ dead_pointer

pub Safe-chain :
    {S A B : Type 0} (P : A × S → Type 0) (Q : B × S → Type 0) (r : Outcome (A × S))
    (k : A → Prog S B)
    → Safe P r
    → ((a : A) (t : S) → P (a, t) → Safe Q (k a t))
    → Safe Q (chain r k)
Safe-chain P Q (ok (a, t)) k h f = f a t h
Safe-chain P Q (fault e) k h f = h

-- The same, where the continuation may use what the first part came to.
pub Safe-chain_eq :
    {S A B : Type 0} (P : A × S → Type 0) (Q : B × S → Type 0) (r : Outcome (A × S))
    (k : A → Prog S B)
    → Safe P r
    → ((a : A) (t : S) → r ≡ ok (a, t) → P (a, t) → Safe Q (k a t))
    → Safe Q (chain r k)
Safe-chain_eq P Q (ok (a, t)) k h f = f a t refl h
Safe-chain_eq P Q (fault e) k h f = h

pub Safe-if :
    {S A : Type 0} (Q : A × S → Type 0) (b : Bool) (m k : Prog S A) (s : S)
    → Safe Q (m s)
    → Safe Q (k s)
    → Safe Q ((if b then m else k) s)
Safe-if Q true m k s h h' = h
Safe-if Q false m k s h h' = h'

-- A computation that never uses a dead object, from any state.
abbrev pub Tame : {S A : Type 0} → Prog S A → Type 0
Tame {S} m = (s : S) → Safe (λ r. Unit {0}) (m s)

pub Safe-IfReturns :
    {A : Type 0} (P : A → Type 0) (r : Outcome A)
    → Safe (λ r'. Unit {0}) r
    → IfReturns P r
    → Safe P r
Safe-IfReturns P (ok a) h k = k
Safe-IfReturns P (fault f) h k = h

pub Safe-both :
    {A : Type 0} (P Q R : A → Type 0) (r : Outcome A)
    → Safe P r
    → IfReturns Q r
    → ((a : A) → P a → Q a → R a)
    → Safe R r
Safe-both P Q R (ok a) h k f = f a h k
Safe-both P Q R (fault f) h k g = h

pub Tame->>= :
    {S A B : Type 0} (m : Prog S A) (k : A → Prog S B)
    → Tame m
    → ((a : A) → Tame (k a))
    → Tame (m >>= k)
Tame->>= m k h f s = Safe-chain (λ r. Unit {0}) (λ r. Unit {0}) (m s) k (h s) λ a t _. f a t

pub Tame-if :
    {S A : Type 0} (b : Bool) (m k : Prog S A) → Tame m → Tame k → Tame (if b then m else k)
Tame-if b m k h h' s = Safe-if (λ r. Unit {0}) b m k s (h s) (h' s)

pub Safe-mono :
    {A : Type 0} (P Q : A → Type 0) (r : Outcome A) → Safe P r → ((a : A) → P a → Q a) → Safe Q r
Safe-mono P Q (ok a) h k = k a h
Safe-mono P Q (fault f) h k = h

-- A branch on a test whose outcome the branch may use.
pub Safe-test :
    {S A : Type 0} (Q : A × S → Type 0) (b : Bool) (m k : Prog S A) (s : S)
    → (b ≡ true → Safe Q (m s))
    → (b ≡ false → Safe Q (k s))
    → Safe Q ((if b then m else k) s)
Safe-test Q true m k s h h' = h refl
Safe-test Q false m k s h h' = h' refl

pub Returns-Safe :
    {A : Type 0} (P Q : A → Type 0) (r : Outcome A) → Returns P r → ((a : A) → P a → Q a) → Safe Q r
Returns-Safe P Q (ok a) h k = k a h
Returns-Safe P Q (fault f) h k = absurd h
