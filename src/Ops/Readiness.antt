-- ===== src/Ops/Readiness.antt =====
-- lib/data-gates.js: which stocks pass the gates.
use portfolio_manager.Base.{
  ◌*◌, ◌≡◌, ◌≢◌, ◌↔◌, ◌⊎◌, inl, inr, refl, sym, ap, ◌∙◌, Bool, true, false, not, ◌&&◌, List, [],
  ◌∷◌, ◌++◌, and_split, both, arith,
}
use portfolio_manager.Base.Int.{ℤ, pos, ◌-ℤ◌, ltb_ℤ, ltb_ℤ→ge, ◌≤ℤ◌}
use portfolio_manager.Ops.Gates.{
  Reading, absent, nan, reading, Field, price, trailing_eps, forward_eps, margin_trend, rsi,
  recent_bars, market_cap, avg_dollar_volume, GateInput, GateOptions, missing_data, stale_bars,
  thin_volume, require_present, is_null, is_below, missing_if, is_stale, microcap_ceiling,
  is_micro_cap, volume_floor, missing_fields, reason_if, is_thin, is_none_of, evaluate_data_gates,
}

-- A number is there.
abbrev pub Known : Reading → Type 0
Known (reading v) = Unit
Known absent = ⊥
Known nan = ⊥

abbrev pub AtLeast : ℤ → Reading → Type 0
AtLeast limit (reading v) = limit ≤ℤ v
AtLeast limit absent = ⊥
AtLeast limit nan = ⊥

-- The last bar is no older than the days that are allowed.
abbrev pub RecentBar : GateOptions → Reading → Type 0
RecentBar o (reading t) = o.now -ℤ t ≤ℤ pos (o.max_bar_age_days * 86_400_000)
RecentBar o absent = ⊥
RecentBar o nan = ⊥

-- The capital is known; it is that of no micro-cap, or the volume reaches the floor.
abbrev pub Liquid : ℤ → Reading → Reading → Type 0
Liquid floor cap volume = Known cap × (AtLeast microcap_ceiling cap ⊎ AtLeast floor volume)

-- What a stock needs to be traded.
pub record Ready (i : GateInput) (o : GateOptions) : Type 0 where
  pub price_known : Known i.price_value
  pub trailing_known : Known i.trailing_eps_value
  pub forward_known : Known i.forward_eps_value
  pub margin_known : Known i.gross_margins ⊎ Known i.profit_margins
  pub rsi_known : Known i.rsi_value
  pub recent : RecentBar o i.last_bar
  pub liquid : Liquid (volume_floor o) i.market_cap_value i.avg_dollar_volume_value

-- None of the values that are only compared with null is NaN.
pub record NoNan (i : GateInput) : Type 0 where
  pub gross : i.gross_margins ≢ nan
  pub profit : i.profit_margins ≢ nan
  pub bar : i.last_bar ≢ nan
  pub cap : i.market_cap_value ≢ nan
  pub volume : i.avg_dollar_volume_value ≢ nan

abbrev is_read : Reading → Bool
is_read (reading v) = true
is_read absent = false
is_read nan = false

-- Everything that is required is there.
abbrev is_complete : GateInput → Bool
is_complete i =
    is_read i.price_value
    && (is_read i.trailing_eps_value
        && (is_read i.forward_eps_value
            && (not (is_null i.gross_margins && is_null i.profit_margins)
                && (is_read i.rsi_value
                    && (not (is_null i.last_bar)
                        && (not (is_null i.market_cap_value)
                            && not (is_micro_cap i && is_null i.avg_dollar_volume_value)))))))

none_of_append :
    {A : Type 0} (xs ys : List A) → is_none_of (xs ++ ys) ≡ is_none_of xs && is_none_of ys
none_of_append [] ys = refl
none_of_append (x ∷ xs) ys = refl

present : (r : Reading) (f : Field) → is_none_of (require_present r f) ≡ is_read r
unfolding require_present
present absent f = refl
present nan f = refl
present (reading v) f = refl

none_if : (b : Bool) (f : Field) → is_none_of (missing_if b f) ≡ not b
none_if true f = refl
none_if false f = refl

step :
    (r ys : List Field) {a b : Bool}
    → is_none_of r ≡ a
    → is_none_of ys ≡ b
    → is_none_of (r ++ ys) ≡ a && b
step r ys {a = a} p q = none_of_append r ys ∙ (ap (λ c. c && is_none_of ys) p ∙ ap (λ c. a && c) q)

missing_fields_complete : (i : GateInput) → is_none_of (missing_fields i) ≡ is_complete i
unfolding missing_fields
missing_fields_complete i = step _ _ (present i.price_value price) (
    step _ _ (present i.trailing_eps_value trailing_eps) (
      step _ _ (present i.forward_eps_value forward_eps) (
        step _ _ (none_if (is_null i.gross_margins && is_null i.profit_margins) margin_trend) (
          step _ _ (present i.rsi_value rsi) (
            step _ _ (none_if (is_null i.last_bar) recent_bars) (
              step _ _ (none_if (is_null i.market_cap_value) market_cap) (
                none_if (is_micro_cap i && is_null i.avg_dollar_volume_value)
                  avg_dollar_volume)))))))

gate_tests :
    (missing : List Field) (stale thin : Bool)
    → is_none_of missing
        && not stale
        && is_none_of (
            reason_if (not (is_none_of missing)) missing_data
            ++ (reason_if stale stale_bars ++ reason_if thin thin_volume))
      ≡ is_none_of missing && (not stale && not thin)
gate_tests [] false false = refl
gate_tests [] false true = refl
gate_tests [] true thin = refl
gate_tests (m ∷ ms) false thin = refl
gate_tests (m ∷ ms) true thin = refl

evaluate_data_gates-tests :
    (i : GateInput) (o : GateOptions)
    → (evaluate_data_gates i o).ok_to_trade
      ≡ is_complete i && (not (is_stale o i.last_bar) && not (is_thin o i))
unfolding evaluate_data_gates
evaluate_data_gates-tests i o =
    gate_tests (missing_fields i) (is_stale o i.last_bar) (is_thin o i)
    ∙ ap (λ b. b && (not (is_stale o i.last_bar) && not (is_thin o i))) (missing_fields_complete i)

known : (r : Reading) → (is_read r ≡ true) ↔ Known r
known (reading v) = (λ h. tt, λ h. refl)
known absent = (λ h. cc h, λ h. absurd h)
known nan = (λ h. cc h, λ h. absurd h)

one_given :
    (g p : Reading)
    → g ≢ nan
    → p ≢ nan
    → (not (is_null g && is_null p) ≡ true) ↔ (Known g ⊎ Known p)
one_given nan p n m = absurd (n refl)
one_given (reading v) p n m = (λ h. inl tt, λ h. refl)
one_given absent nan n m = absurd (m refl)
one_given absent (reading v) n m = (λ h. inr tt, λ h. refl)
one_given absent absent n m = (λ h. cc h, λ h. elim h [ inl a ↦ absurd a | inr a ↦ absurd a ])

recent_iff :
    (o : GateOptions) (r : Reading)
    → r ≢ nan
    → ((not (is_null r) ≡ true) × (not (is_stale o r) ≡ true)) ↔ RecentBar o r
unfolding is_stale
recent_iff o nan n = absurd (n refl)
recent_iff o absent n = (λ h. cc h.0, λ h. absurd h)
recent_iff o (reading t) n = (λ h. ground (arith, h.1), λ h. (refl, ground (arith, h)))

-- The tests of the code on the capital and the volume.
abbrev PassesLiquidity : ℤ → Reading → Reading → Type 0
PassesLiquidity floor cap volume =
    (not (is_null cap) ≡ true)
    × (not (is_below cap microcap_ceiling && is_null volume) ≡ true)
    × (not (is_below cap microcap_ceiling && is_below volume floor) ≡ true)

nand : (a b : Bool) → not (a && b) ≡ true → (a ≡ false) ⊎ (b ≡ false)
nand true true h = cc h
nand true false h = inr refl
nand false b h = inl refl

nand_first : {a : Bool} → a ≡ false → (b : Bool) → not (a && b) ≡ true
nand_first {a = true} h b = cc h
nand_first {a = false} h b = refl

nand_second : (a : Bool) {b : Bool} → b ≡ false → not (a && b) ≡ true
nand_second true {b = true} h = cc h
nand_second true {b = false} h = refl
nand_second false h = refl

not_below : (a b : ℤ) → b ≤ℤ a → ltb_ℤ a b ≡ false
not_below a b h = ground arith

liquidity_iff :
    (floor : ℤ) (cap volume : Reading)
    → cap ≢ nan
    → volume ≢ nan
    → PassesLiquidity floor cap volume ↔ Liquid floor cap volume
liquidity_iff floor nan volume n m = absurd (n refl)
liquidity_iff floor absent volume n m = (λ h. cc h.0, λ h. absurd h.0)
liquidity_iff floor (reading c) nan n m = absurd (m refl)
liquidity_iff floor (reading c) absent n m = (
  λ h. elim (nand (ltb_ℤ c microcap_ceiling) true h.1) [
    | inl e ↦ (tt, inl (ltb_ℤ→ge c microcap_ceiling e))
    | inr e ↦ cc e
  ],
  λ h. elim h.1 [
    | inl ge ↦
        let e = not_below c microcap_ceiling ge in (refl, nand_first e true, nand_first e false)
    | inr a ↦ absurd a
  ],
)
liquidity_iff floor (reading c) (reading v) n m = (
  λ h. elim (nand (ltb_ℤ c microcap_ceiling) (ltb_ℤ v floor) h.2) [
    | inl e ↦ (tt, inl (ltb_ℤ→ge c microcap_ceiling e))
    | inr e ↦ (tt, inr (ltb_ℤ→ge v floor e))
  ],
  λ h. elim h.1 [
    | inl ge ↦
        let e = not_below c microcap_ceiling ge in
        (refl, nand_first e false, nand_first e (ltb_ℤ v floor))
    | inr ge ↦ (
      refl,
      nand_second (ltb_ℤ c microcap_ceiling) refl,
      nand_second (ltb_ℤ c microcap_ceiling) (not_below v floor ge),
    )
  ],
)

module _ (i : GateInput) (o : GateOptions) (n : NoNan i) where
  passes-Ready :
      is_complete i && (not (is_stale o i.last_bar) && not (is_thin o i)) ≡ true → Ready i o
  unfolding is_micro_cap is_thin
  passes-Ready h =
      let top = and_split h in
      let late = and_split top.1 in
      let p = and_split top.0 in
      let t = and_split p.1 in
      let f = and_split t.1 in
      let m = and_split f.1 in
      let r = and_split m.1 in
      let b = and_split r.1 in
      let c = and_split b.1 in
      record {
        price_known = (known i.price_value).0 p.0;
        trailing_known = (known i.trailing_eps_value).0 t.0;
        forward_known = (known i.forward_eps_value).0 f.0;
        margin_known = (one_given i.gross_margins i.profit_margins n.gross n.profit).0 m.0;
        rsi_known = (known i.rsi_value).0 r.0;
        recent = (recent_iff o i.last_bar n.bar).0 (b.0, late.0);
        liquid =
            (liquidity_iff (volume_floor o) i.market_cap_value i.avg_dollar_volume_value n.cap
                n.volume).0
              (c.0, c.1, late.1);
      }

  Ready-passes :
      Ready i o → is_complete i && (not (is_stale o i.last_bar) && not (is_thin o i)) ≡ true
  unfolding is_micro_cap is_thin
  Ready-passes r =
      let bar = (recent_iff o i.last_bar n.bar).1 r.recent in
      let l =
        (liquidity_iff (volume_floor o) i.market_cap_value i.avg_dollar_volume_value n.cap
            n.volume).1
          r.liquid in
      both
        (both ((known i.price_value).1 r.price_known) (
          both ((known i.trailing_eps_value).1 r.trailing_known) (
            both ((known i.forward_eps_value).1 r.forward_known) (
              both ((one_given i.gross_margins i.profit_margins n.gross n.profit).1 r.margin_known)
                (both ((known i.rsi_value).1 r.rsi_known) (both bar.0 (both l.0 l.1)))))))
        (both bar.1 l.2)

  -- Of a stock whose margins, last bar, capital and volume are not NaN: it passes the gates exactly when
  -- its price, its two earnings, a margin and the RSI are known numbers; the last bar is no older than
  -- the days allowed; and its capital is known, and either is no micro-cap's or its volume reaches the floor.
  pub evaluate_data_gates_iff : ((evaluate_data_gates i o).ok_to_trade ≡ true) ↔ Ready i o
  evaluate_data_gates_iff = (
    λ h. passes-Ready (sym (evaluate_data_gates-tests i o) ∙ h),
    λ r. evaluate_data_gates-tests i o ∙ Ready-passes r,
  )
