-- ===== src/Prelude/Monad.antt =====
-- A call of a service: it reads and writes the state, and returns a value or throws. What was
-- written before a throw stays written, unless the call runs in a transaction.
use mathlib.Core.Path.{◌≡◌, refl}
use mathlib.Core.Logic.{◌⊎◌, inl, inr}
use mathlib.Core.Bool.{Bool, true, false}
use mathlib.Core.Option.{Option, none, some}

-- How a call ended, and the state that it left.
pub data Outcome {ℓ κ μ} (S : Type ℓ) (E : Type κ) (A : Type μ) : Type (ℓ ⊔ κ ⊔ μ) where
  ok : A → S → Outcome S E A
  err : E → S → Outcome S E A

abbrev pub Action {ℓ κ μ} : Type ℓ → Type κ → Type μ → Type (ℓ ⊔ κ ⊔ μ)
Action S E A = S → Outcome S E A

module _ {ℓ κ μ} {S : Type ℓ} {E : Type κ} {A : Type μ} where
  abbrev pub final : Outcome S E A → S
  final (ok a s) = s
  final (err e s) = s

  abbrev pub pure : A → Action S E A
  pure a s = ok a s

  abbrev pub throw : E → Action S E A
  throw e s = err e s

  abbrev pub gets : (S → A) → Action S E A
  gets f s = ok (f s) s

  -- `if (!value) throw …`
  abbrev pub or_throw : Option A → E → Action S E A
  or_throw o e s = elim o [ none ↦ err e s | some a ↦ ok a s ]

  -- `if (test) { … } else { … }`
  abbrev pub if_else : Bool → Action S E A → Action S E A → Action S E A
  if_else b m k s = elim b [ true ↦ m s | false ↦ k s ]

  -- `prisma.$transaction(fn)`: a throw rolls every write back.
  abbrev pub with_transaction : Action S E A → Action S E A
  with_transaction m s = elim (m s) [ ok a s' ↦ ok a s' | err e s' ↦ err e s ]

module _ {ℓ κ} {S : Type ℓ} {E : Type κ} where
  -- `if (test) throw …`
  abbrev pub throw_if : Bool → E → Action S E (Unit {0})
  throw_if b e s = elim b [ true ↦ err e s | false ↦ ok tt s ]

  abbrev pub modify : (S → S) → Action S E (Unit {0})
  modify f s = ok tt (f s)

infixl 5 ◌>>=◌ ◌>>◌
abbrev pub ◌>>=◌ {ℓ κ μ ν} :
    {S : Type ℓ} {E : Type κ} {A : Type μ} {B : Type ν}
    → Action S E A
    → (A → Action S E B)
    → Action S E B
◌>>=◌ m f s = elim (m s) [ ok a s' ↦ f a s' | err e s' ↦ err e s' ]

abbrev pub ◌>>◌ {ℓ κ μ ν} :
    {S : Type ℓ} {E : Type κ} {A : Type μ} {B : Type ν} → Action S E A → Action S E B → Action S E B
m >> k = m >>= λ _. k

pub Outcome-cases {ℓ κ μ} :
    {S : Type ℓ} {E : Type κ} {A : Type μ} (o : Outcome S E A)
    → ((a : A) × (s : S) × (o ≡ ok a s)) ⊎ ((e : E) × (s : S) × (o ≡ err e s))
Outcome-cases (ok a s) = inl (a, s, refl)
Outcome-cases (err e s) = inr (e, s, refl)
