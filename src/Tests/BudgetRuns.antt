-- ===== src/Tests/BudgetRuns.antt =====
-- The run budget on a sequence of calls, and its limit there.
use portfolio_manager.Base.{thrown, ℕ, ◌≤◌, ◌≡◌, refl, false, none, some, List, [], ◌∷◌}
use portfolio_manager.Base.Int.{pos}
use portfolio_manager.Base.Money.{not_a_number, above_all}
use portfolio_manager.Budget.Reservations.{
  Config, budget_exhausted, generator, new_budget, accounted_usd, round_usd, active_usd,
  create_active_reservation, resize_active_reservation, check_warning, set_amount,
  delete_reservation, settled_cost, settle_active_reservation,
}
use portfolio_manager.Budget.Run.{
  CallRequest, settle_anthropic_call, reserve_generator, reserve_evaluator, take_floor,
  authorize_anthropic_call, authorize_bounded, authorize_reserved, resize_to,
}
use portfolio_manager.Budget.Calls.{
  Call, reserve_generation, reserve_evaluation, authorize, settle, perform_all,
  accounted_usd_within_limit,
}

-- Five cents: a generation of three, and no room for an evaluation of ten.
abbrev five_cents : Config
five_cents = record {
  max_usd = 5_000_000_000_000;
  warn_pct = 80_000_000_000_000;
  generator_reserve = 3_000_000_000_000;
  opus_reserve = 10_000_000_000_000;
  sonnet_reserve = 2_000_000_000_000;
  allow_evaluator_fallback = false;
}

abbrev generation : CallRequest
generation = record {
  role = generator;
  reserve_usd = not_a_number;
  bound = some 4_000_000_000_000;
  monthly = none;
  fresh_id = "b";
}

abbrev calls : List Call
calls =
    reserve_generation "a"
    ∷ reserve_evaluation "c"
    ∷ authorize generation
    ∷ settle (some "a") (some (pos 1_000_000_000_000))
    ∷ []

one_cent : accounted_usd (perform_all five_cents calls new_budget) ≡ 1_000_000_000_000
unfolding accounted_usd active_usd round_usd reserve_generator reserve_evaluator
    create_active_reservation resize_active_reservation check_warning set_amount delete_reservation
    settled_cost settle_active_reservation settle_anthropic_call take_floor authorize_anthropic_call
    authorize_bounded authorize_reserved resize_to
one_cent = refl

-- A reserve that is infinite is refused, and nothing stays reserved.
refuses_infinity :
    authorize_anthropic_call five_cents (record generation { reserve_usd = above_all }) new_budget
    ≡ (thrown budget_exhausted, new_budget)
unfolding authorize_anthropic_call authorize_bounded take_floor create_active_reservation round_usd
    accounted_usd active_usd authorize_reserved resize_to check_warning delete_reservation
refuses_infinity = refl

some_reserve : {a n : ℕ} → some a ≡ some n → a ≡ n
some_reserve h = cc

accounted_usd_within_limit_example :
    accounted_usd (perform_all five_cents calls new_budget) ≤ 5_000_000_000_000
accounted_usd_within_limit_example =
    accounted_usd_within_limit five_cents calls
      (record { generator_usd = refl; opus_usd = refl; sonnet_usd = refl })
      (tt, (tt, ((λ n h. rw⁻¹ (some_reserve h) refl), (tt, tt))))
