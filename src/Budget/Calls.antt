-- ===== src/Budget/Calls.antt =====
-- lib/ai-budget.js: the limit over any run of calls.
use portfolio_manager.Base.{
  ℕ, ◌+◌, ◌≤◌, ◌≡◌, refl, String, Bool, true, false, Option, none, some, List, [], ◌∷◌, All, ◌&&◌,
  leb, Bool-cases, Option-cases, Outcome-cases, inl, inr, arith, ok, thrown,
}
use portfolio_manager.Base.Money.{Num}
use portfolio_manager.Budget.Reservations.{
  Budget, Config, Result, Role, Floor, new_budget, accounted_usd, round_usd,
  create_active_reservation, success,
}
use portfolio_manager.Budget.Run.{
  CallRequest, push_floor, reserve_generator, reserve_evaluator, take_floor, request_reserve,
  resize_to, after_monthly, authorize_reserved, authorize_bounded, drop_floor,
  authorize_anthropic_call, settle_anthropic_call, settle_anthropic_provider_failure,
  failure_disposition,
}
use portfolio_manager.Budget.Limit.{
  IsUsd, Within, accounted_usd_exact, create-Within, delete-Within,
}
use portfolio_manager.Budget.Settling.{resize-Within, settle-Within}

pub data Call : Type 0 where
  reserve_generation reserve_evaluation : String → Call
  authorize : CallRequest → Call
  settle failed : Option String → Num → Call

-- The state after a call, whether it returned or threw.
abbrev pub perform : Config → Call → Budget → Budget
perform c (reserve_generation id) b = (reserve_generator c id b).1
perform c (reserve_evaluation id) b = (reserve_evaluator c id b).1
perform c (authorize q) b = (authorize_anthropic_call c q b).1
perform c (settle id cost) b = (settle_anthropic_call id cost b).1
perform c (failed id status) b = (settle_anthropic_provider_failure id status b).1

abbrev pub perform_all : Config → List Call → Budget → Budget
perform_all c [] b = b
perform_all c (call ∷ calls) b = perform_all c calls (perform c call b)

pub record ConfigUsd (c : Config) : Type 0 where
  pub generator_usd : IsUsd c.generator_reserve
  pub opus_usd : IsUsd c.opus_reserve
  pub sonnet_usd : IsUsd c.sonnet_reserve

abbrev pub ReserveUsd : Option ℕ → Type 0
ReserveUsd none = Unit
ReserveUsd (some n) = IsUsd n

abbrev pub BoundUsd : CallRequest → Type 0
BoundUsd q = (n : ℕ) → q.bound ≡ some n → ReserveUsd (request_reserve q.reserve_usd n)

-- A request reserves a whole number of 1e-12 dollars.
abbrev pub CallUsd : Call → Type 0
CallUsd (authorize q) = BoundUsd q
CallUsd (reserve_generation id) = Unit
CallUsd (reserve_evaluation id) = Unit
CallUsd (settle id cost) = Unit
CallUsd (failed id status) = Unit

push_floor-Within :
    {A : Type 0} (c : Config) (role : Role) (a : A) (r : Result String)
    → Within c r.1
    → Within c (push_floor role a r).1
push_floor-Within c role a (thrown e, b) w = w
push_floor-Within c role a (ok id, b) w = record {
  committed = w.committed;
  amounts = w.amounts;
  bound = w.bound;
}

after_monthly-Within :
    (c : Config) (id : String) (m : Option Bool) (b : Budget)
    → Within c b
    → Within c (after_monthly id m b).1
after_monthly-Within c id none b w = w
after_monthly-Within c id (some true) b w = w
after_monthly-Within c id (some false) b w = delete-Within c id b w

resize_to-Within :
    (c : Config) (id : String) (amount : Option ℕ) (b : Budget)
    → ReserveUsd amount
    → Within c b
    → Within c (resize_to c id amount b).1
unfolding resize_to
resize_to-Within c id none b usd w = w
resize_to-Within c id (some n) b usd w = resize-Within c id n b usd w

authorize_reserved-Within :
    (c : Config) (q : CallRequest) (n : ℕ) (id : String) (b : Budget)
    → ReserveUsd (request_reserve q.reserve_usd n)
    → Within c b
    → Within c (authorize_reserved c q n id b).1
unfolding authorize_reserved
authorize_reserved-Within c q n id b usd w =
    let r = resize_to c id (request_reserve q.reserve_usd n) b in
    let kept = resize_to-Within c id (request_reserve q.reserve_usd n) b usd w in
    elim (Outcome-cases r.0) [
      | inl e ↦ rw (e.1, authorize_reserved) (after_monthly-Within c id q.monthly r.1 kept)
      | inr e ↦ rw (e.1, authorize_reserved) (delete-Within c id r.1 kept)
    ]

authorize_bounded-Within :
    (c : Config) (q : CallRequest) (n : ℕ) (f : Option Floor) (b : Budget)
    → ReserveUsd (request_reserve q.reserve_usd n)
    → Within c b
    → Within c (authorize_bounded c q n f b).1
unfolding authorize_bounded
authorize_bounded-Within c q n (some f) b usd w = authorize_reserved-Within c q n f.id b usd w
authorize_bounded-Within c q n none b usd w =
    let r = create_active_reservation c q.fresh_id 0 b in
    let kept = create-Within c q.fresh_id 0 b refl w in
    elim (Outcome-cases r.0) [
      | inl e ↦ rw (e.1, authorize_bounded) (authorize_reserved-Within c q n e.0 r.1 usd kept)
      | inr e ↦ rw (e.1, authorize_bounded) kept
    ]

drop_floor-Within :
    (c : Config) (f : Option Floor) (b : Budget) → Within c b → Within c (drop_floor f b)
drop_floor-Within c none b w = w
drop_floor-Within c (some f) b w = delete-Within c f.id b w

authorize-Within :
    (c : Config) (q : CallRequest) (b : Budget)
    → BoundUsd q
    → Within c b
    → Within c (authorize_anthropic_call c q b).1
unfolding authorize_anthropic_call
authorize-Within c q b usd w =
    let taken = take_floor q.role b.pending_call_floors in
    let without : Within c (record b { pending_call_floors = taken.1 }) = record {
      committed = w.committed;
      amounts = w.amounts;
      bound = w.bound;
    } in
    elim (Option-cases q.bound) [
      | inl e ↦ rw (e, authorize_anthropic_call) (drop_floor-Within c taken.0 _ without)
      | inr e ↦
          rw (e.1, authorize_anthropic_call)
            (authorize_bounded-Within c q e.0 taken.0 _ (usd e.0 e.1) without)
    ]

evaluator-Within :
    (c : Config) (id : String) (b : Budget)
    → ConfigUsd c
    → Within c b
    → Within c (reserve_evaluator c id b).1
unfolding reserve_evaluator
evaluator-Within c id b usd w =
    elim (Bool-cases (leb (round_usd (accounted_usd b + c.opus_reserve)) c.max_usd)) [
      | inl e ↦
          rw (e, reserve_evaluator)
            (push_floor-Within c _ _ _ (create-Within c id _ b usd.opus_usd w))
      | inr e ↦
          elim (Bool-cases (
            c.allow_evaluator_fallback
            && leb (round_usd (accounted_usd b + c.sonnet_reserve)) c.max_usd)) [
              | inl k ↦
                  rw (e, reserve_evaluator, k)
                    (push_floor-Within c _ _ _ (create-Within c id _ b usd.sonnet_usd w))
              | inr k ↦ rw (e, reserve_evaluator, k) w
            ]
    ]

perform-Within :
    (c : Config) (call : Call) (b : Budget)
    → ConfigUsd c
    → CallUsd call
    → Within c b
    → Within c (perform c call b)
unfolding reserve_generator settle_anthropic_call settle_anthropic_provider_failure
perform-Within c (reserve_generation id) b usd k w =
    push_floor-Within c _ _ _ (create-Within c id _ b usd.generator_usd w)
perform-Within c (reserve_evaluation id) b usd k w = evaluator-Within c id b usd w
perform-Within c (authorize q) b usd k w = authorize-Within c q b k w
perform-Within c (settle id cost) b usd k w = settle-Within c id (success cost) b w
perform-Within c (failed id status) b usd k w = settle-Within c id (failure_disposition status) b w

perform_all-Within :
    (c : Config) (calls : List Call) (b : Budget)
    → ConfigUsd c
    → All CallUsd calls
    → Within c b
    → Within c (perform_all c calls b)
perform_all-Within c [] b usd k w = w
perform_all-Within c (call ∷ calls) b usd k w =
    perform_all-Within c calls (perform c call b) usd k.1 (perform-Within c call b usd k.0 w)

-- After any sequence of calls, refused and failed ones included, on a configuration and requests
-- in whole 1e-12 dollars, what the run accounts for is within its limit.
pub accounted_usd_within_limit :
    (c : Config) (calls : List Call)
    → ConfigUsd c
    → All CallUsd calls
    → accounted_usd (perform_all c calls new_budget) ≤ c.max_usd
accounted_usd_within_limit c calls usd k =
    let w =
      perform_all-Within c calls new_budget usd k
        (record { committed = refl; amounts = tt; bound = omega arith }) in
    rw (accounted_usd_exact c (perform_all c calls new_budget) w) w.bound
