-- ===== src/Base/Hoare.antt =====
-- Statements about what a computation comes to: `Returns` says that it ends without a fault in a
-- result with a property, `IfReturns` that a result has it where there is one.
use mathlib.Core.Path.{◌≡◌, refl}
use mathlib.Core.Bool.{Bool, true, false}
use udp_kcp_plugin.Base.Tests.{if◌then◌else◌}
use udp_kcp_plugin.Base.Outcome.{Outcome, ok, fault, Prog, chain}

abbrev pub Returns : {A : Type 0} → (A → Type 0) → Outcome A → Type 0
Returns P (ok a) = P a
Returns P (fault f) = ⊥

abbrev pub IfReturns : {A : Type 0} → (A → Type 0) → Outcome A → Type 0
IfReturns P (ok a) = P a
IfReturns P (fault f) = Unit {0}

pub Returns-map :
    {A : Type 0} (P Q : A → Type 0) (r : Outcome A)
    → Returns P r
    → ((a : A) → P a → Q a)
    → Returns Q r
Returns-map P Q (ok a) h k = k a h
Returns-map P Q (fault f) h k = h

pub Returns-chain :
    {S A B : Type 0} (P : A × S → Type 0) (Q : B × S → Type 0) (r : Outcome (A × S))
    (k : A → Prog S B)
    → Returns P r
    → ((a : A) (t : S) → P (a, t) → Returns Q (k a t))
    → Returns Q (chain r k)
Returns-chain P Q (ok (a, t)) k h f = f a t h
Returns-chain P Q (fault e) k h f = h

pub IfReturns-chain :
    {S A B : Type 0} (P : A × S → Type 0) (Q : B × S → Type 0) (r : Outcome (A × S))
    (k : A → Prog S B)
    → IfReturns P r
    → ((a : A) (t : S) → P (a, t) → IfReturns Q (k a t))
    → IfReturns Q (chain r k)
IfReturns-chain P Q (ok (a, t)) k h f = f a t h
IfReturns-chain P Q (fault e) k h f = tt

-- A computation that returns is known by its result.
pub Returns-ok :
    {A : Type 0} (P : A → Type 0) (r : Outcome A) → Returns P r → (a : A) × (r ≡ ok a) × P a
Returns-ok P (ok a) h = (a, refl, h)
Returns-ok P (fault f) h = absurd h

pub Returns-both :
    {A : Type 0} (P Q R : A → Type 0) (r : Outcome A)
    → Returns P r
    → IfReturns Q r
    → ((a : A) → P a → Q a → R a)
    → Returns R r
Returns-both P Q R (ok a) h k f = f a h k
Returns-both P Q R (fault e) h k f = h

-- Where nothing has to be known of the first part but its result.
pub IfReturns-after :
    {S A B : Type 0} (Q : B × S → Type 0) (r : Outcome (A × S)) (k : A → Prog S B)
    → ((a : A) (t : S) → r ≡ ok (a, t) → IfReturns Q (k a t))
    → IfReturns Q (chain r k)
IfReturns-after Q (ok (a, t)) k f = f a t refl
IfReturns-after Q (fault e) k f = tt

pub IfReturns-mono :
    {A : Type 0} (P Q : A → Type 0) (r : Outcome A)
    → IfReturns P r
    → ((a : A) → P a → Q a)
    → IfReturns Q r
IfReturns-mono P Q (ok a) h k = k a h
IfReturns-mono P Q (fault f) h k = tt

-- A branch on a test, whichever way it goes.
pub IfReturns-if :
    {S A : Type 0} (Q : A × S → Type 0) (b : Bool) (m k : Prog S A) (s : S)
    → IfReturns Q (m s)
    → IfReturns Q (k s)
    → IfReturns Q ((if b then m else k) s)
IfReturns-if Q true m k s h h' = h
IfReturns-if Q false m k s h h' = h'
