-- ===== src/Prelude/Branches.antt =====
-- What holds of the result of a call, shown one branch at a time.
use mathlib.Core.Path.{◌≡◌, refl}
use mathlib.Core.Bool.{Bool, true, false}
use mathlib.Core.Option.{Option, none, some}
use advanced_oslab.Prelude.Tests.{if◌then◌else◌}
use advanced_oslab.Prelude.Outcome.{Outcome, ok, aborted, undefined, spins, exited, ◌>>=◌}

-- What holds of a result, if there is one.
abbrev pub IfOk {ℓ} : {A : Type ℓ} → (A → Type 0) → Outcome A → Type 0
IfOk P (ok a) = P a
IfOk P aborted = Unit
IfOk P undefined = Unit
IfOk P spins = Unit
IfOk P exited = Unit

pub bind-IfOk {ℓ κ} :
    {A : Type ℓ} {B : Type κ} (P : B → Type 0) (m : Outcome A) (f : A → Outcome B)
    → ((a : A) → IfOk P (f a))
    → IfOk P (m >>= f)
bind-IfOk P (ok a) f h = h a
bind-IfOk P aborted f h = tt
bind-IfOk P undefined f h = tt
bind-IfOk P spins f h = tt
bind-IfOk P exited f h = tt

-- The same, with what is known of the first result.
pub bind-IfOk_from {ℓ κ} :
    {A : Type ℓ} {B : Type κ} (P : B → Type 0) (Q : A → Type 0) (m : Outcome A) (f : A → Outcome B)
    → IfOk Q m
    → ((a : A) → Q a → IfOk P (f a))
    → IfOk P (m >>= f)
bind-IfOk_from P Q (ok a) f q h = h a q
bind-IfOk_from P Q aborted f q h = tt
bind-IfOk_from P Q undefined f q h = tt
bind-IfOk_from P Q spins f q h = tt
bind-IfOk_from P Q exited f q h = tt

pub itself-IfOk : {A : Type 0} (m : Outcome A) → IfOk (λ a. m ≡ ok a) m
itself-IfOk (ok a) = refl
itself-IfOk aborted = tt
itself-IfOk undefined = tt
itself-IfOk spins = tt
itself-IfOk exited = tt

-- A test, a pointer that may be NULL: what holds on both branches holds of the whole.
pub if_keeps {ℓ} :
    {A : Type ℓ} (P : A → Type 0) (b : Bool) {x y : A} → P x → P y → P (if b then x else y)
if_keeps P true h k = h
if_keeps P false h k = k

pub if_known {ℓ} :
    {A : Type ℓ} (P : A → Type 0) (b : Bool) {x y : A}
    → (b ≡ true → P x)
    → (b ≡ false → P y)
    → P (if b then x else y)
if_known P true h k = h refl
if_known P false h k = k refl

pub elim_keeps {ℓ κ} :
    {A : Type ℓ} {B : Type κ} (P : B → Type 0) (o : Option A) {x : B} {f : A → B}
    → P x
    → ((a : A) → P (f a))
    → P (elim o [ none ↦ x | some a ↦ f a ])
elim_keeps P none h k = h
elim_keeps P (some a) h k = k a

pub elim_known {ℓ κ} :
    {A : Type ℓ} {B : Type κ} (P : B → Type 0) (Q : Option A → Type 0) (o : Option A) {x : B}
    {f : A → B}
    → Q o
    → P x
    → ((a : A) → Q (some a) → P (f a))
    → P (elim o [ none ↦ x | some a ↦ f a ])
elim_known P Q none q h k = h
elim_known P Q (some a) q h k = k a q

-- A call that may end the program, before what follows it.
pub or_exit-IfOk {ℓ κ} :
    {A : Type ℓ} {B : Type κ} (P : B → Type 0) (b : Bool) (x : A) (f : A → Outcome B)
    → IfOk P (f x)
    → IfOk P ((if b then ok x else exited) >>= f)
or_exit-IfOk P true x f h = h
or_exit-IfOk P false x f h = tt
