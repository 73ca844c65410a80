-- ===== src/Prelude/Results.antt =====
-- Outcomes of fallible code. Go's errors differ only by their text, which nobody reads; an error
-- here is the kind of check that failed. `panic` is a run-time panic (an index or a slice out of
-- range), and `out_of_fuel` a loop of the model that was given too few rounds: both are faults,
-- which no theorem about success may hide.
use mathlib.Core.Path.{◌≡◌, refl, subst, ap, ◌∙◌}
use mathlib.Core.Logic.{◌⊎◌, inl, inr}
use mathlib.Core.Bool.{Bool, true, false}

pub data Error : Type 0 where
  underrun too_many_jumps bad_label name_too_long label_with_dot bad_rdlength : Error
  no_address no_soa short_rdata : Error
  no_denial unsupported_denial : Error
  bad_rrset bad_signature unsupported_algorithm : Error
  mismatch bogus no_reply : Error
  panic out_of_fuel : Error

abbrev pub is_fault : Error → Bool
is_fault panic = true
is_fault out_of_fuel = true
is_fault _ = false

pub data Result {ℓ} (A : Type ℓ) : Type ℓ where
  err : Error → Result A
  ok : A → Result A

-- `if !b { return err }`
abbrev pub guard : Bool → Error → Result (Unit {0})
guard false failure = err failure
guard true failure = ok tt

-- What follows runs on the value of a success; a failure is passed on.
infixl 5 ◌>>=◌ ◌>>◌
abbrev pub ◌>>=◌ {ℓ κ} : {A : Type ℓ} {B : Type κ} → Result A → (A → Result B) → Result B
err failure >>= next = err failure
ok value >>= next = next value

abbrev pub ◌>>◌ {ℓ} : {B : Type ℓ} → Result (Unit {0}) → Result B → Result B
first >> next = first >>= λ _. next

-- A result satisfies `P`, or is an ordinary error; it is never a fault.
pub data Ensures {ℓ} {A : Type ℓ} (P : A → Type ℓ) : Result A → Type ℓ where
  returns : {a : A} → P a → Ensures P (ok a)
  fails : {e : Error} → is_fault e ≡ false → Ensures P (err e)

module _ {ℓ} {A : Type ℓ} where
  pub Ensures-ok : {P : A → Type ℓ} {a : A} {r : Result A} → Ensures P r → r ≡ ok a → P a
  Ensures-ok {P} (returns {a = b} p) h = subst P (cc) p
  Ensures-ok (fails _) h = absurd (cc)

  pub Ensures-err :
      {P : A → Type ℓ} {e : Error} {r : Result A} → Ensures P r → r ≡ err e → is_fault e ≡ false
  Ensures-err (returns _) h = absurd (cc)
  Ensures-err (fails f) h = cc

  pub Ensures-map :
      {P Q : A → Type ℓ} {r : Result A} → ((a : A) → P a → Q a) → Ensures P r → Ensures Q r
  Ensures-map f (returns {a} p) = returns (f a p)
  Ensures-map f (fails h) = fails h

module _ {ℓ} {A B : Type ℓ} {P : A → Type ℓ} {Q : B → Type ℓ} where
  pub Ensures-bind :
      {m : Result A} (f : A → Result B)
      → Ensures P m
      → ((a : A) → P a → Ensures Q (f a))
      → Ensures Q (m >>= f)
  Ensures-bind f (returns {a} p) k = k a p
  Ensures-bind f (fails h) k = fails h

-- A result is a value that satisfies `P`, and no error.
abbrev pub Yields {ℓ} : {A : Type ℓ} → (A → Type ℓ) → Result A → Type ℓ
Yields {A = A} P r = (a : A) × (r ≡ ok a) × P a

module _ {ℓ} {A B : Type ℓ} {P : A → Type ℓ} {Q : B → Type ℓ} where
  pub Yields-bind :
      {m : Result A} (f : A → Result B)
      → Yields P m
      → ((a : A) → P a → Yields Q (f a))
      → Yields Q (m >>= f)
  Yields-bind f (a, e, p) k = let (b, eb, q) = k a p in (b, ap (λ r. r >>= f) e ∙ eb, q)

-- A chain ends well just when each of its steps does.
pub after_guard {ℓ} :
    {B : Type ℓ} {v : B} (b : Bool) (e : Error) (r : Result B)
    → guard b e >> r ≡ ok v
    → (b ≡ true) × (r ≡ ok v)
after_guard true e r h = (refl, h)
after_guard false e r h = absurd (cc)

pub after_step {ℓ κ} :
    {A : Type ℓ} {B : Type κ} {v : B} (m : Result A) (f : A → Result B)
    → m >>= f ≡ ok v
    → (a : A) × (m ≡ ok a) × (f a ≡ ok v)
after_step (err e) f h = absurd (cc)
after_step (ok a) f h = (a, refl, h)

pub then_guard {ℓ} :
    {B : Type ℓ} {v : B} (b : Bool) (e : Error) (r : Result B)
    → b ≡ true
    → r ≡ ok v
    → guard b e >> r ≡ ok v
then_guard true e r t h = h
then_guard false e r t h = absurd (cc)

pub then_step {ℓ κ} :
    {A : Type ℓ} {B : Type κ} {v : B} {a : A} (m : Result A) (f : A → Result B)
    → m ≡ ok a
    → f a ≡ ok v
    → m >>= f ≡ ok v
then_step m f e h = ap (λ r. r >>= f) e ∙ h

-- To split on a result and keep the equation.
pub Result-cases {ℓ} :
    {A : Type ℓ} (r : Result A) → ((a : A) × (r ≡ ok a)) ⊎ ((e : Error) × (r ≡ err e))
Result-cases (ok a) = inl (a, refl)
Result-cases (err e) = inr (e, refl)
