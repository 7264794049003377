-- ===== src/Month/UsageComplete.antt =====
-- The telemetry of a month whose records are all written by the code.
use text.Mathlib.Text.{starts_with}
use Prim.Native.String.{◌++◌ as str_append}
use portfolio_manager.Base.{
  ℕ, ◌+◌, ◌≡◌, refl, sym, ap, ◌∙◌, String, true, some, List, [], ◌∷◌, All, arith, ok,
}
use portfolio_manager.Month.Usage.{V2Record, UsageInput, Repriced, build_usage_record}
use portfolio_manager.Month.UsageSum.{
  Stored, second, first, unreadable_value, other_schema, DayRecord, is_expected, reprice_record,
  reprice_stored, Totals, no_totals, add_records, add_outcome, aggregate_usage_records,
  add_repriced, telemetry_status,
}
use portfolio_manager.Month.UsageRead.{OnGrid, round_usd-add, build_usage_record-ReadBack}

-- A day's value that the code has written: a record that it built, in the month and in the list of its day.
pub record WrittenIn (month : String) (d : DayRecord) : Type 0 where
  pub i : UsageInput
  pub rec : V2Record
  pub built : build_usage_record i ≡ ok rec
  pub stored : d.stored ≡ second rec
  pub in_month : starts_with d.created_day (str_append month "-") ≡ true
  pub on_day : is_expected d.expected_day d.created_day ≡ true

-- The cost that a value carries.
abbrev pub carried_cost : Stored → ℕ
carried_cost (second rec) = rec.estimated_cost
carried_cost (first rec) = 0
carried_cost unreadable_value = 0
carried_cost other_schema = 0

abbrev pub carried_total : List DayRecord → ℕ
carried_total [] = 0
carried_total (d ∷ ds) = carried_cost d.stored + carried_total ds

reprice-read :
    (month : String) (d : DayRecord) (w : WrittenIn month d)
    → let b = build_usage_record-ReadBack w.i w.rec w.built in reprice_record month d ≡ ok b.r
unfolding reprice_record reprice_stored
reprice-read month d w =
    let b = build_usage_record-ReadBack w.i w.rec w.built in
    rw (w.in_month, w.on_day, w.stored) b.read

-- The totals after values that all are read.
record Adds (t u : Totals) (n : ℕ) : Type 0 where
  cost : u.estimated_cost ≡ t.estimated_cost + n
  no_issue : u.issues ≡ t.issues

add_repriced-Adds :
    (r : Repriced) (t : Totals)
    → OnGrid t.estimated_cost
    → OnGrid r.cost
    → Adds t (add_repriced r t) r.cost
unfolding add_repriced
add_repriced-Adds r t h k = record {
  cost = round_usd-add t.estimated_cost r.cost h k;
  no_issue = refl;
}

Adds-trans : {t u v : Totals} (n m : ℕ) → Adds t u n → Adds u v m → Adds t v (n + m)
Adds-trans n m p q = record {
  cost = omega (arith, p.cost, q.cost);
  no_issue = q.no_issue ∙ p.no_issue;
}

grid_sum :
    (t u : Totals) (n : ℕ)
    → Adds t u n
    → OnGrid t.estimated_cost
    → OnGrid n
    → OnGrid u.estimated_cost
grid_sum t u n a h k = omega (arith, a.cost, h, k)

add_records-Adds :
    (month : String) (ds : List DayRecord) (t : Totals)
    → OnGrid t.estimated_cost
    → All (WrittenIn month) ds
    → Adds t (add_records month ds t) (carried_total ds)
unfolding add_records add_outcome
add_records-Adds month [] t h w = record { cost = omega arith; no_issue = refl }
add_records-Adds month (d ∷ ds) t h w =
    let b = build_usage_record-ReadBack w.0.i w.0.rec w.0.built in
    let read = reprice-read month d w.0 in
    let carried : carried_cost d.stored ≡ b.r.cost = ap carried_cost w.0.stored ∙ sym b.same_cost in
    let grid : OnGrid b.r.cost = rw b.same_cost b.on_grid in
    let one = add_repriced-Adds b.r t h grid in
    rw (read, carried)
      (Adds-trans b.r.cost (carried_total ds) one (
        add_records-Adds month ds (add_repriced b.r t)
          (grid_sum t (add_repriced b.r t) b.r.cost one h grid) w.1))

-- Where every value of a month was written by the code, in the list of its day, no list is full and every read succeeds, the telemetry is
-- complete, and its cost is the sum of the costs that the records carry.
pub aggregate_complete :
    (month : String) (ds : List DayRecord)
    → All (WrittenIn month) ds
    → aggregate_usage_records month ds 0 0
      ≡ record { telemetry_status = "COMPLETE"; estimated_cost = some (carried_total ds) }
unfolding aggregate_usage_records telemetry_status
aggregate_complete month ds w =
    let a = add_records-Adds month ds no_totals refl w in
    let c : (add_records month ds no_totals).estimated_cost ≡ carried_total ds =
      omega (arith, a.cost) in
    rw (a.no_issue, c) refl
