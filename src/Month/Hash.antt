-- ===== src/Month/Hash.antt =====
-- A Redis hash of numbers, as the list of its fields; the scripts of
-- lib/anthropic-monthly-budget.js keep the amount and the end of each lease in one.
use portfolio_manager.Base.{
  ℕ, ◌+◌, ◌≡◌, refl, Option, none, some, List, [], ◌∷◌, if◌then◌else◌, or_else, Bool-cases, inl,
  inr, arith, String, eq_iff,
}
use portfolio_manager.Base.Text.{◌=s=◌}

-- A field and its number.
abbrev pub Entry : Type 0
Entry = String × ℕ

-- `HGET`
unfoldable pub get? : String → List Entry → Option ℕ
get? id [] = none
get? id ((key, value) ∷ xs) = if key =s= id then some value else get? id xs

-- `HDEL`; a field stands in the list once, since `set` is all that adds one.
unfoldable pub del : String → List Entry → List Entry
del id [] = []
del id ((key, value) ∷ xs) = let rest = del id xs in if key =s= id then xs else (key, value) ∷ rest

-- `HSET`
unfoldable pub set : String → ℕ → List Entry → List Entry
set id amount [] = (id, amount) ∷ []
set id amount ((key, value) ∷ xs) =
    let rest = set id amount xs in if key =s= id then (key, amount) ∷ xs else (key, value) ∷ rest

abbrev pub total : List Entry → ℕ
total [] = 0
total ((key, value) ∷ xs) = value + total xs

-- `redis.call("hget", ...) or "0"`
abbrev pub amount_of : String → List Entry → ℕ
amount_of id xs = or_else (get? id xs) 0

pub total-del : (id : String) (xs : List Entry) → total xs ≡ amount_of id xs + total (del id xs)
unfolding get? del
total-del id [] = refl
total-del id ((key, value) ∷ xs) = elim (Bool-cases (key =s= id)) [
  | inl e ↦ rw e refl
  | inr e ↦ rw e (omega (arith, total-del id xs))
]

pub total-set :
    (id : String) (amount : ℕ) (xs : List Entry)
    → total (set id amount xs) + amount_of id xs ≡ total xs + amount
unfolding get? set
total-set id amount [] = omega arith
total-set id amount ((key, value) ∷ xs) = elim (Bool-cases (key =s= id)) [
  | inl e ↦ rw e (omega arith)
  | inr e ↦ rw e (omega (arith, total-set id amount xs))
]

-- A removal brings no field back.
pub get?-del :
    (id other : String) (xs : List Entry) → get? id xs ≡ none → get? id (del other xs) ≡ none
unfolding get? del
get?-del id other [] h = refl
get?-del id other ((key, value) ∷ xs) h = elim (Bool-cases (key =s= id)) [
  | inl e ↦
      let g : (if key =s= id then some value else get? id xs) ≡ some value = rw e refl in cc (g, h)
  | inr e ↦ elim (Bool-cases (key =s= other)) [
    | inl o ↦ rw o (rw e at h)
    | inr o ↦ rw (o, e) (get?-del id other xs (rw e at h))
  ]
]

pub get?-set :
    (id : String) (amount : ℕ) (xs : List Entry) → get? id (set id amount xs) ≡ some amount
unfolding get? set
get?-set id amount [] = rw ((eq_iff id id).1 refl) refl
get?-set id amount ((key, value) ∷ xs) = elim (Bool-cases (key =s= id)) [
  | inl e ↦ rw (e, e) refl
  | inr e ↦ rw (e, e) (get?-set id amount xs)
]
