-- ===== src/Base/Results.antt =====
-- A call that returns a value or throws. The errors of a component are a data type of its own,
-- with a constructor for each `throw`.
use mathlib.Core.Path.{◌≡◌, refl}
use mathlib.Core.Logic.{◌⊎◌, inl, inr}
use mathlib.Core.Bool.{Bool, true, false}

pub data Outcome {ε α} (Error : Type ε) (Value : Type α) : Type (ε ⊔ α) where
  ok : Value → Outcome Error Value
  thrown : Error → Outcome Error Value

-- The calls of a function in order; the first throw ends them.
infixl 5 ◌>>=◌ ◌>>◌
abbrev pub ◌>>=◌ {ε α β} :
    {Error : Type ε} {Value : Type α} {Next : Type β}
    → Outcome Error Value
    → (Value → Outcome Error Next)
    → Outcome Error Next
thrown problem >>= next = thrown problem
ok value >>= next = next value

-- The same after a check, which has no value.
abbrev pub ◌>>◌ {ε β} :
    {Error : Type ε} {Next : Type β}
    → Outcome Error (Unit {0})
    → Outcome Error Next
    → Outcome Error Next
check >> next = check >>= λ _. next

-- `if (test) throw problem;`
abbrev pub throw_if {ε} : {Error : Type ε} → Bool → Error → Outcome Error (Unit {0})
throw_if false problem = ok tt
throw_if true problem = thrown problem

-- A sequence that returns ran its first call to the end.
pub >>=-eq-ok {ε α β} :
    {Error : Type ε} {Value : Type α} {Next : Type β} (call : Outcome Error Value)
    (next : Value → Outcome Error Next) {result : Next}
    → (call >>= next) ≡ ok result
    → (value : Value) × (call ≡ ok value) × (next value ≡ ok result)
>>=-eq-ok (thrown problem) next returned = cc
>>=-eq-ok (ok value) next returned = (value, refl, returned)

-- A check that does not throw has a false test.
pub passed {ε} :
    {Error : Type ε} (test : Bool) (problem : Error) {u : Unit {0}}
    → throw_if test problem ≡ ok u
    → test ≡ false
passed true problem h = cc h
passed false problem h = refl

pub ok-injective {ε α} :
    {Error : Type ε} {Value : Type α} {x y : Value}
    → ◌≡◌ {A = Outcome Error Value} (ok x) (ok y)
    → x ≡ y
ok-injective same = cc

-- To split on a call and keep the equation.
pub Outcome-cases {ε α} :
    {Error : Type ε} {Value : Type α} (call : Outcome Error Value)
    → ((value : Value) × (call ≡ ok value)) ⊎ ((problem : Error) × (call ≡ thrown problem))
Outcome-cases (thrown problem) = inr (problem, refl)
Outcome-cases (ok value) = inl (value, refl)
