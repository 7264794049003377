-- ===== src/Risk/Ratchet.antt =====
-- The high-water mark (`assessCircuitBreaker`, `reconcileNavHighWaterMark`).
use portfolio_manager.Base.{ℕ, ◌≤◌, Option, none, some, List, [], ◌∷◌, ◌≡◌, refl, ◌↔◌, arith, All}
use portfolio_manager.Base.Int.{ℤ, ◌+ℤ◌, ◌≤ℤ◌, -ℤ_parts, +ℤ_parts}
use portfolio_manager.Base.Money.{Num, nano}
use portfolio_manager.Risk.Breaker.{
  unknown, Assessment, assess_from, assess_circuit_breaker, positive?, StoredMark,
  reconcile_nav_high_water_mark, larger, larger_count,
}

-- A number of zero or more bounds what may be absent.
abbrev pub AtMost : Num → Num → Type 0
AtMost none b = Unit
AtMost (some a) none = ⊥
AtMost (some a) (some b) = a ≤ℤ b

AtMost-trans : (a b c : Num) → AtMost a b → AtMost b c → AtMost a c
AtMost-trans none b c h k = tt
AtMost-trans (some a) none c h k = absurd h
AtMost-trans (some a) (some b) none h k = absurd k
AtMost-trans (some a) (some b) (some c) h k = omega arith

AtMost-refl : (a : Num) → AtMost a a
AtMost-refl none = tt
AtMost-refl (some a) = omega arith

abbrev Ratchets : Num → Num → Assessment → Type 0
Ratchets now mark a =
    AtMost mark a.high_water_mark
    × AtMost now a.high_water_mark
    × (now ≡ none → (a.tier ≡ unknown) × (a.high_water_mark ≡ mark))

assess_from-Ratchets : (now mark : Num) → Ratchets now mark (assess_from now mark)
unfolding assess_from
assess_from-Ratchets none mark = (AtMost-refl mark, tt, λ _. (refl, refl))
assess_from-Ratchets (some now) none = (tt, ground arith, λ h. cc)
assess_from-Ratchets (some now) (some m) = (ground arith, ground arith, λ h. cc)

-- Whatever is observed, the new mark is at least the old one, and at least a positive
-- observation; without such an observation the tier is UNKNOWN and the mark stays.
pub assess_ratchets :
    (current mark : Num)
    → let a = assess_circuit_breaker current mark in
      AtMost mark a.high_water_mark
      × AtMost (positive? current) a.high_water_mark
      × (positive? current ≡ none → (a.tier ≡ unknown) × (a.high_water_mark ≡ mark))
unfolding assess_circuit_breaker
assess_ratchets current mark = assess_from-Ratchets (positive? current) mark

-- The mark that a run of observations leaves, each run persisting the mark for the next.
pub mark_after : List Num → Num → Num
mark_after [] mark = mark
mark_after (c ∷ cs) mark = mark_after cs (assess_circuit_breaker c mark).high_water_mark

-- Over any run of observations the mark never falls, and it ends at or above every positive
-- observation.
pub mark_after_ratchets :
    (cs : List Num) (mark : Num)
    → AtMost mark (mark_after cs mark) × All (λ c. AtMost (positive? c) (mark_after cs mark)) cs
unfolding mark_after
mark_after_ratchets [] mark = (AtMost-refl mark, tt)
mark_after_ratchets (c ∷ cs) mark =
    let next = (assess_circuit_breaker c mark).high_water_mark in
    let (up, seen, _) = assess_ratchets c mark in
    let (later, rest) = mark_after_ratchets cs next in
    (
      AtMost-trans mark next (mark_after cs next) up later,
      (AtMost-trans (positive? c) next (mark_after cs next) seen later, rest),
    )

abbrev pub kept_value : Option StoredMark → Num
kept_value none = none
kept_value (some s) = positive? s.value

abbrev pub kept_rows : Option StoredMark → Option ℕ
kept_rows none = none
kept_rows (some s) = s.daily_rows

abbrev pub AtMostRows : Option ℕ → Option ℕ → Type 0
AtMostRows none b = Unit
AtMostRows (some a) none = ⊥
AtMostRows (some a) (some b) = a ≤ b

larger_bounds : (a b : Num) → AtMost a (larger a b) × AtMost b (larger a b)
larger_bounds none none = (tt, tt)
larger_bounds none (some b) = (tt, omega arith)
larger_bounds (some a) none = (omega arith, tt)
larger_bounds (some a) (some b) = ground arith

larger_count_bounds :
    (a b : Option ℕ) → AtMostRows a (larger_count a b) × AtMostRows b (larger_count a b)
larger_count_bounds none none = (tt, tt)
larger_count_bounds none (some b) = (tt, omega arith)
larger_count_bounds (some a) none = (omega arith, tt)
larger_count_bounds (some a) (some b) = omega arith

-- A scheduled rebuild raises the stored mark and row count or keeps them, it never lowers them,
-- and neither falls below what the ledger shows now.
pub reconcile_ratchets :
    (ledger : Num) (observed : Option ℕ) (stored : Option StoredMark)
    → let r = reconcile_nav_high_water_mark ledger observed stored in
      AtMost (kept_value stored) r.high_water_mark
      × AtMost (positive? ledger) r.high_water_mark
      × AtMostRows (kept_rows stored) r.daily_rows
      × AtMostRows observed r.daily_rows
unfolding reconcile_nav_high_water_mark
reconcile_ratchets ledger observed none =
    let (a, b) = larger_bounds none (positive? ledger) in
    let (c, d) = larger_count_bounds none observed in (a, b, c, d)
reconcile_ratchets ledger observed (some s) =
    let (a, b) = larger_bounds (positive? s.value) (positive? ledger) in
    let (c, d) = larger_count_bounds s.daily_rows observed in (a, b, c, d)

-- Where the ledger and the store have a positive mark and a row count each, a rebuild reports no
-- issue exactly when the ledger's mark lies 1e-9 at most below the stored one, and its row count
-- not below the stored count.
pub reconcile_issues_iff :
    (ledger : Num) (observed : Option ℕ) (s : StoredMark) (m l : ℤ) (old new : ℕ)
    → positive? s.value ≡ some m
    → positive? ledger ≡ some l
    → s.daily_rows ≡ some old
    → observed ≡ some new
    → ((reconcile_nav_high_water_mark ledger observed (some s)).issues ≡ [])
      ↔ ((m ≤ℤ l +ℤ nano) × (old ≤ new))
unfolding reconcile_nav_high_water_mark
reconcile_issues_iff ledger observed s m l old new e f g h =
    rw (e, f, g, h)
      (
        λ k. ground (arith, -ℤ_parts m nano, +ℤ_parts l nano),
        λ k. ground (arith, -ℤ_parts m nano, +ℤ_parts l nano),
      )
