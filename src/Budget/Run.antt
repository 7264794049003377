-- ===== src/Budget/Run.antt =====
-- lib/ai-budget.js: the methods that `createResearchRunBudget` returns. The outcome of the request
-- estimate, the answer of the monthly budget and a drawn id are arguments of a call.
use portfolio_manager.Base.{
  ℕ, ◌+◌, ◌*◌, ◌%◌, String, Bool, true, false, ◌&&◌, Option, none, some, List, [], ◌∷◌, ◌++◌, any,
  if◌then◌else◌, leb, ◌==◌, ok, thrown,
}
use Prim.Native.Nat.{max}
use portfolio_manager.Base.Int.{pos, negsuc, pos_part}
use portfolio_manager.Base.Money.{
  Number, not_a_number, below_all, above_all, finite, Num, unit_grains,
}
use portfolio_manager.Budget.Reservations.{
  Budget, Config, Disposition, Floor, Result, Role, accounted_usd, ambiguous_failure,
  budget_exhausted, create_active_reservation, delete_reservation, evaluator, generator,
  monthly_refused, provider_rejection, resize_active_reservation, has_id, reservation_missing,
  round_usd, same_role, settle_active_reservation, success, unbounded_request,
}

-- `pendingCallFloors.push({ id, role })`, after a reservation that did not throw
abbrev pub push_floor : {A : Type 0} → Role → A → Result String → Result A
push_floor role value (thrown e, b) = (thrown e, b)
push_floor role value (ok id, b) = (
  ok value,
  record b {
    pending_call_floors = b.pending_call_floors ++ (record { id = id; role = role } ∷ []);
  },
)

unfoldable pub reserve_generator : Config → String → Budget → Result (Unit {0})
reserve_generator c id b =
    push_floor generator tt (create_active_reservation c id c.generator_reserve b)

unfoldable pub reserve_evaluator : Config → String → Budget → Result String
reserve_evaluator c id b =
    if leb (round_usd (accounted_usd b + c.opus_reserve)) c.max_usd
    then push_floor evaluator "opus" (create_active_reservation c id c.opus_reserve b)
    else if c.allow_evaluator_fallback
        && leb (round_usd (accounted_usd b + c.sonnet_reserve)) c.max_usd
    then push_floor evaluator "sonnet" (create_active_reservation c id c.sonnet_reserve b)
    else (thrown budget_exhausted, b)

-- `splice` at the first floor of a role: the floor, and the others.
unfoldable pub take_floor : Role → List Floor → Option Floor × List Floor
take_floor role [] = (none, [])
take_floor role (f ∷ fs) =
    let rest = take_floor role fs in
    if same_role f.role role then (some f, fs) else (rest.0, f ∷ rest.1)

pub record CallRequest : Type 0 where
  pub role : Role
  pub reserve_usd : Number
  pub bound : Option ℕ
  pub monthly : Option Bool
  pub fresh_id : String

-- `Math.max(Number(reserveUsd) || 0, requestBound.upperBoundUsd)`, with `none` for an infinity
abbrev pub request_reserve : Number → ℕ → Option ℕ
request_reserve not_a_number bound = some bound
request_reserve below_all bound = some bound
request_reserve above_all bound = none
request_reserve (finite v) bound = some (max (pos_part v) bound)

-- `resizeActiveReservation`; an infinite amount is above every limit.
unfoldable pub resize_to : Config → String → Option ℕ → Budget → Result (Unit {0})
unfolding resize_active_reservation
resize_to c id none b =
    let listed = any (has_id id) b.active_reservations in
    (thrown (if listed then budget_exhausted else reservation_missing), b)
resize_to c id (some amount) b = resize_active_reservation c id amount b

-- The monthly budget has refused: the reservation of this run is dropped.
abbrev pub after_monthly : String → Option Bool → Budget → Result String
after_monthly id none b = (ok id, b)
after_monthly id (some true) b = (ok id, b)
after_monthly id (some false) b = (thrown monthly_refused, delete_reservation id b)

-- From the reservation on: it is resized to the request, or dropped.
unfoldable pub authorize_reserved : Config → CallRequest → ℕ → String → Budget → Result String
authorize_reserved c q bound id b =
    let resized = resize_to c id (request_reserve q.reserve_usd bound) b in
    elim resized.0 [
      | thrown e ↦ (thrown e, delete_reservation id resized.1)
      | ok _ ↦ after_monthly id q.monthly resized.1
    ]

unfoldable pub authorize_bounded : Config → CallRequest → ℕ → Option Floor → Budget → Result String
authorize_bounded c q bound (some floor) b = authorize_reserved c q bound floor.id b
authorize_bounded c q bound none b =
    let created = create_active_reservation c q.fresh_id 0 b in
    elim created.0 [
      | thrown e ↦ (thrown e, created.1)
      | ok id ↦ authorize_reserved c q bound id created.1
    ]

abbrev pub drop_floor : Option Floor → Budget → Budget
drop_floor none b = b
drop_floor (some floor) b = delete_reservation floor.id b

unfoldable pub authorize_anthropic_call : Config → CallRequest → Budget → Result String
authorize_anthropic_call c q b =
    let taken = take_floor q.role b.pending_call_floors in
    let without : Budget = record b { pending_call_floors = taken.1 } in
    elim q.bound [
      | none ↦ (thrown unbounded_request, drop_floor taken.0 without)
      | some bound ↦ authorize_bounded c q bound taken.0 without
    ]

unfoldable pub settle_anthropic_call : Option String → Num → Budget → Result (Unit {0})
settle_anthropic_call id cost b = settle_active_reservation id (success cost) b

-- An integer from 400 to 599 is a rejection by the provider.
unfoldable pub failure_disposition : Num → Disposition
failure_disposition none = ambiguous_failure
failure_disposition (some (negsuc n)) = ambiguous_failure
failure_disposition (some (pos n)) =
    if n % unit_grains == 0 && leb (400 * unit_grains) n && leb n (599 * unit_grains)
    then provider_rejection
    else ambiguous_failure

unfoldable pub settle_anthropic_provider_failure : Option String → Num → Budget → Result (Unit {0})
settle_anthropic_provider_failure id status b =
    settle_active_reservation id (failure_disposition status) b
