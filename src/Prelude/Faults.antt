-- ===== src/Prelude/Faults.antt =====
-- How a call ends: it returns, or it takes the process down. glog's CHECK and LOG(FATAL) abort; a
-- read through a bad pointer, a signed overflow or a division by zero has no defined behaviour.
-- `no_fuel` is no behaviour of the program: a loop was given too few rounds.
use mathlib.Core.Path.{◌≡◌, refl, ap, ◌∙◌}
use mathlib.Core.Logic.{◌⊎◌, inl, inr}
use mathlib.Core.Bool.{Bool, true, false}
use mathlib.Core.Option.{Option, none, some}
use native.Mathlib.Omega.{arith}

pub data Fault : Type 0 where
  check_failed log_fatal undefined no_fuel : Fault

pub data Outcome {ℓ} (A : Type ℓ) : Type ℓ where
  ok : A → Outcome A
  fault : Fault → Outcome A

infixl 5 ◌>>◌ ◌>>=◌
-- The next step runs on what this one returns.
abbrev pub ◌>>=◌ {ℓ κ} : {R : Type ℓ} {S : Type κ} → Outcome R → (R → Outcome S) → Outcome S
fault problem >>= next = fault problem
ok result >>= next = next result

abbrev pub ◌>>◌ {κ} : {S : Type κ} → Outcome (Unit {0}) → Outcome S → Outcome S
first >> second = first >>= λ _. second

-- CHECK(condition)
abbrev pub check : Bool → Outcome (Unit {0})
check true = ok tt
check false = fault check_failed

-- if (condition) LOG(FATAL)
abbrev pub fatal_if : Bool → Outcome (Unit {0})
fatal_if true = fault log_fatal
fatal_if false = ok tt

-- an access that the language leaves undefined when it misses
abbrev pub or_undefined {ℓ} : {A : Type ℓ} → Option A → Outcome A
or_undefined none = fault undefined
or_undefined (some a) = ok a

module _ {ℓ κ} {A : Type ℓ} {B : Type κ} where
  pub >>=-eq-ok :
      (step : Outcome A) (next : A → Outcome B) {end : B}
      → (step >>= next) ≡ ok end
      → (mid : A) × (step ≡ ok mid) × (next mid ≡ ok end)
  >>=-eq-ok (fault problem) next eq = cc
  >>=-eq-ok (ok mid) next eq = (mid, refl, eq)

pub Outcome-cases {ℓ} :
    {A : Type ℓ} (m : Outcome A) → ((a : A) × (m ≡ ok a)) ⊎ ((e : Fault) × (m ≡ fault e))
Outcome-cases (ok a) = inl (a, refl)
Outcome-cases (fault e) = inr (e, refl)

-- A property of what a chain returns is proved from the last step, with the steps before it at hand.
pub bind_ensures {ℓ κ μ} :
    {A : Type ℓ} {B : Type κ} (Q : B → Type μ) (m : Outcome A) (f : A → Outcome B)
    → ((a : A) → m ≡ ok a → (b : B) → f a ≡ ok b → Q b)
    → (b : B) → (m >>= f) ≡ ok b
    → Q b
bind_ensures Q (ok a) f h b e = h a refl b e
bind_ensures Q (fault x) f h b e = cc

pub ok-injective {ℓ} : {A : Type ℓ} {a b : A} → ok a ≡ ok b → a ≡ b
ok-injective e = cc

pub or_undefined_eq {ℓ} : {A : Type ℓ} {o : Option A} {a : A} → or_undefined o ≡ ok a → o ≡ some a
or_undefined_eq {o = none} e = cc
or_undefined_eq {o = some x} e = ground arith

-- A chain returns where its first step does and the rest does on what that step returns.
pub bind_returns {ℓ κ} :
    {R : Type ℓ} {S : Type κ} (m : Outcome R) (f : R → Outcome S) {a : R}
    → m ≡ ok a
    → (b : S) × (f a ≡ ok b)
    → (b : S) × ((m >>= f) ≡ ok b)
bind_returns (ok x) f e (b, g) = (b, ap f (ok-injective e) ∙ g)
bind_returns (fault x) f e g = cc

pub bind_assoc {ℓ κ μ} :
    {A : Type ℓ} {B : Type κ} {C : Type μ} (m : Outcome A) (f : A → Outcome B) (g : B → Outcome C)
    → ((m >>= f) >>= g) ≡ (m >>= λ a. f a >>= g)
bind_assoc (ok a) f g = refl
bind_assoc (fault x) f g = refl
