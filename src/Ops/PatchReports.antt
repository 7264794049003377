-- ===== src/Ops/PatchReports.antt =====
-- lib/companion-proposal-state.js: which patches of the executor are accepted.
use portfolio_manager.Base.{
  ◌≡◌, ◌≢◌, ◌↔◌, ◌⊎◌, inl, inr, refl, sym, ap, ◌∙◌, ◌>>◌, String, Bool, true, false, not, ◌&&◌,
  ◌||◌, Option, none, some, List, [], ◌∷◌, any, all, All, ok, throw_if, and_split, both,
  ok-injective, eq_iff, arith, Outcome,
}
use portfolio_manager.Base.Int.{pos, ◌<ℤ◌, ltb_ℤ→lt}
use portfolio_manager.Base.Money.{Num}
use portfolio_manager.Base.Text.{◌=s=◌, trim, is_empty}
use portfolio_manager.Ops.Patch.{
  Value, null, text, number, other, StatePatch, ProposalState, forbidden_field, bad_status,
  bad_execution_state, bad_text, bad_number, not_reportable, is_allowed, string_fields, field_of,
  null_or_one_of, null_or_text, null_or_positive, is_positive, is_reportable, has_entries,
  allowed_fields, validate_companion_proposal_state_patch,
}

abbrev pub Among : String → List String → Type 0
Among s [] = ⊥
Among s (t ∷ ts) = (t ≡ s) ⊎ Among s ts

-- The fields that the executor may report, by what they hold.
abbrev pub reported_texts : List String
reported_texts =
    "executionStartedAt" ∷ "executionOrderId" ∷ "executionFailedAt" ∷ "executionFailureReason" ∷ []

abbrev pub reported_numbers : List String
reported_numbers = "executionShares" ∷ "executionPrice" ∷ []

abbrev pub reported_fields : List String
reported_fields =
    "status" ∷ "executionState" ∷ "executionStartedAt" ∷ "executionOrderId" ∷ "executionShares"
    ∷ "executionPrice" ∷ "executionFailedAt" ∷ "executionFailureReason" ∷ []

-- Null, or one of the texts.
abbrev pub Says : List String → Value → Type 0
Says ts null = Unit
Says ts (text s n) = Among s ts
Says ts (number n) = ⊥
Says ts (other n) = ⊥

-- Null, or a text that is not blank.
abbrev pub SaysText : Value → Type 0
SaysText null = Unit
SaysText (text s n) = trim s ≢ ""
SaysText (number n) = ⊥
SaysText (other n) = ⊥

abbrev pub Positive : Num → Type 0
Positive none = ⊥
Positive (some x) = pos 0 <ℤ x

-- Null, or what `Number` makes a positive number of.
abbrev pub SaysPositive : Value → Type 0
SaysPositive null = Unit
SaysPositive (text s n) = Positive n
SaysPositive (number n) = Positive n
SaysPositive (other n) = Positive n

abbrev pub NoTime : Option String → Type 0
NoTime none = Unit
NoTime (some at) = at ≡ ""

-- No proposal is given, or one that is approved and not fulfilled.
abbrev pub Reportable : Option ProposalState → Type 0
Reportable none = Unit
Reportable (some p) = (p.status ≡ "ApprovedForBrokerReview") × NoTime p.fulfilled_at

pub record Reports (patch : StatePatch) (proposal : Option ProposalState) : Type 0 where
  pub something : patch ≢ []
  pub fields : All (λ e. Among e.0 reported_fields) patch
  pub status : Says ("ExecutionFailed" ∷ []) (field_of "status" patch)
  pub state : Says ("Executing" ∷ "BrokerRejected" ∷ []) (field_of "executionState" patch)
  pub texts : All (λ f. SaysText (field_of f patch)) reported_texts
  pub numbers : All (λ f. SaysPositive (field_of f patch)) reported_numbers
  pub reportable : Reportable proposal

either : {a b : Bool} → a || b ≡ true → (a ≡ true) ⊎ (b ≡ true)
either {a = true} h = inl refl
either {a = false} h = inr h

first_of : {a : Bool} (b : Bool) → a ≡ true → a || b ≡ true
first_of {a = true} b h = refl
first_of {a = false} b h = cc h

second_of : (a : Bool) {b : Bool} → b ≡ true → a || b ≡ true
second_of true h = refl
second_of false h = h

any-Among : (s : String) (ts : List String) → (any (λ t. t =s= s) ts ≡ true) ↔ Among s ts
any-Among s [] = (λ h. cc h, λ h. absurd h)
any-Among s (t ∷ ts) = (
  λ h. elim (either h) [ inl e ↦ inl ((eq_iff t s).0 e) | inr e ↦ inr ((any-Among s ts).0 e) ],
  λ h. elim h [
    | inl e ↦ first_of _ ((eq_iff t s).1 e)
    | inr e ↦ second_of (t =s= s) ((any-Among s ts).1 e)
  ],
)

all-All {ℓ} :
    {A : Type ℓ} (p : A → Bool) (P : A → Type 0)
    → ((x : A) → (p x ≡ true) ↔ P x)
    → (xs : List A) → (all p xs ≡ true) ↔ All P xs
all-All p P f [] = (λ h. tt, λ h. refl)
all-All p P f (x ∷ xs) = (
  λ h. let s = and_split h in ((f x).0 s.0, (all-All p P f xs).0 s.1),
  λ h. both ((f x).1 h.0) ((all-All p P f xs).1 h.1),
)

not_empty : (s : String) → (not (is_empty s) ≡ true) ↔ (s ≢ "")
not_empty String.[] = (λ h. cc h, λ n. absurd (n refl))
not_empty (String.◌∷◌ c s) = (λ h e. cc e, λ n. refl)

empty : (s : String) → (is_empty s ≡ true) ↔ (s ≡ "")
empty String.[] = (λ h. refl, λ h. refl)
empty (String.◌∷◌ c s) = (λ h. cc h, λ e. cc e)

is_allowed-Among : (e : String × Value) → (is_allowed e ≡ true) ↔ Among e.0 reported_fields
unfolding is_allowed
is_allowed-Among e = any-Among e.0 allowed_fields

null_or_one_of-Says : (ts : List String) (v : Value) → (null_or_one_of ts v ≡ true) ↔ Says ts v
unfolding null_or_one_of
null_or_one_of-Says ts null = (λ h. tt, λ h. refl)
null_or_one_of-Says ts (text s n) = any-Among s ts
null_or_one_of-Says ts (number n) = (λ h. cc h, λ h. absurd h)
null_or_one_of-Says ts (other n) = (λ h. cc h, λ h. absurd h)

null_or_text-SaysText : (v : Value) → (null_or_text v ≡ true) ↔ SaysText v
unfolding null_or_text
null_or_text-SaysText null = (λ h. tt, λ h. refl)
null_or_text-SaysText (text s n) = not_empty (trim s)
null_or_text-SaysText (number n) = (λ h. cc h, λ h. absurd h)
null_or_text-SaysText (other n) = (λ h. cc h, λ h. absurd h)

is_positive-Positive : (n : Num) → (is_positive n ≡ true) ↔ Positive n
is_positive-Positive none = (λ h. cc h, λ h. absurd h)
is_positive-Positive (some x) = (ltb_ℤ→lt (pos 0) x, λ h. ground (arith, h))

null_or_positive-SaysPositive : (v : Value) → (null_or_positive v ≡ true) ↔ SaysPositive v
unfolding null_or_positive
null_or_positive-SaysPositive null = (λ h. tt, λ h. refl)
null_or_positive-SaysPositive (text s n) = is_positive-Positive n
null_or_positive-SaysPositive (number n) = is_positive-Positive n
null_or_positive-SaysPositive (other n) = is_positive-Positive n

no_time : (o : Option String) → (elim o [ none ↦ true | some at ↦ is_empty at ] ≡ true) ↔ NoTime o
no_time none = (λ h. tt, λ h. refl)
no_time (some at) = empty at

is_reportable-Reportable : (o : Option ProposalState) → (is_reportable o ≡ true) ↔ Reportable o
is_reportable-Reportable none = (λ h. tt, λ h. refl)
is_reportable-Reportable (some p) = (
  λ h.
      let s = and_split h in
      ((eq_iff p.status "ApprovedForBrokerReview").0 s.0, (no_time p.fulfilled_at).0 s.1),
  λ h. both ((eq_iff p.status "ApprovedForBrokerReview").1 h.0) ((no_time p.fulfilled_at).1 h.1),
)

has_entries_iff : (patch : StatePatch) → (has_entries patch ≡ true) ↔ (patch ≢ [])
has_entries_iff [] = (λ h. cc h, λ n. absurd (n refl))
has_entries_iff (e ∷ es) = (λ h k. cc k, λ n. refl)

-- A sequence that returns passed its first test.
checked :
    {E A : Type 0} (test : Bool) (e : E) (next : Outcome E A) {r : A}
    → (throw_if (not test) e >> next) ≡ ok r
    → (test ≡ true) × (next ≡ ok r)
checked true e next h = (refl, h)
checked false e next h = cc h

module _ (patch : StatePatch) (proposal : Option ProposalState) where
  -- The tests of the code, in their order.
  record Passes : Type 0 where
    entries : has_entries patch && all is_allowed patch ≡ true
    status : null_or_one_of ("ExecutionFailed" ∷ []) (field_of "status" patch) ≡ true
    state :
        null_or_one_of ("Executing" ∷ "BrokerRejected" ∷ []) (field_of "executionState" patch)
        ≡ true
    texts : all (λ f. null_or_text (field_of f patch)) string_fields ≡ true
    numbers :
        all (λ f. null_or_positive (field_of f patch)) ("executionShares" ∷ "executionPrice" ∷ [])
        ≡ true
    reportable : is_reportable proposal ≡ true

  texts_iff :
      (all (λ f. null_or_text (field_of f patch)) string_fields ≡ true)
      ↔ All (λ f. SaysText (field_of f patch)) reported_texts
  texts_iff =
      all-All (λ f. null_or_text (field_of f patch)) (λ f. SaysText (field_of f patch))
        (λ f. null_or_text-SaysText (field_of f patch)) string_fields

  numbers_iff :
      (all (λ f. null_or_positive (field_of f patch)) ("executionShares" ∷ "executionPrice" ∷ [])
        ≡ true)
      ↔ All (λ f. SaysPositive (field_of f patch)) reported_numbers
  numbers_iff =
      all-All (λ f. null_or_positive (field_of f patch)) (λ f. SaysPositive (field_of f patch))
        (λ f. null_or_positive-SaysPositive (field_of f patch)) reported_numbers

  Passes-Reports : Passes → Reports patch proposal
  Passes-Reports h =
      let e = and_split h.entries in
      record {
        something = (has_entries_iff patch).0 e.0;
        fields = (all-All is_allowed (λ x. Among x.0 reported_fields) is_allowed-Among patch).0 e.1;
        status =
            (null_or_one_of-Says ("ExecutionFailed" ∷ []) (field_of "status" patch)).0 h.status;
        state =
            (null_or_one_of-Says ("Executing" ∷ "BrokerRejected" ∷ [])
                (field_of "executionState" patch)).0
              h.state;
        texts = texts_iff.0 h.texts;
        numbers = numbers_iff.0 h.numbers;
        reportable = (is_reportable-Reportable proposal).0 h.reportable;
      }

  Reports-Passes : Reports patch proposal → Passes
  Reports-Passes r = record {
    entries =
        both ((has_entries_iff patch).1 r.something)
          ((all-All is_allowed (λ x. Among x.0 reported_fields) is_allowed-Among patch).1 r.fields);
    status = (null_or_one_of-Says ("ExecutionFailed" ∷ []) (field_of "status" patch)).1 r.status;
    state =
        (null_or_one_of-Says ("Executing" ∷ "BrokerRejected" ∷ [])
            (field_of "executionState" patch)).1
          r.state;
    texts = texts_iff.1 r.texts;
    numbers = numbers_iff.1 r.numbers;
    reportable = (is_reportable-Reportable proposal).1 r.reportable;
  }

  Passes-accepted : Passes → validate_companion_proposal_state_patch patch proposal ≡ ok patch
  unfolding validate_companion_proposal_state_patch
  Passes-accepted h = rw (h.entries, h.status, h.state, h.texts, h.numbers, h.reportable) refl

  accepted-Passes :
      {accepted : StatePatch}
      → validate_companion_proposal_state_patch patch proposal ≡ ok accepted
      → (accepted ≡ patch) × Passes
  unfolding validate_companion_proposal_state_patch
  accepted-Passes h =
      let a = checked _ forbidden_field _ h in
      let b = checked _ bad_status _ a.1 in
      let c = checked _ bad_execution_state _ b.1 in
      let d = checked _ bad_text _ c.1 in
      let e = checked _ bad_number _ d.1 in
      let f = checked _ not_reportable _ e.1 in
      (
        sym (ok-injective f.1),
        record {
          entries = a.0;
          status = b.0;
          state = c.0;
          texts = d.0;
          numbers = e.0;
          reportable = f.0;
        },
      )

  -- A patch is accepted, as it was sent, exactly when it has an entry; has none but the eight
  -- fields of execution; its status is null or ExecutionFailed; its executionState is null,
  -- Executing or BrokerRejected; its four texts are null or not blank; its two numbers are null
  -- or positive; and the proposal, if it is given, is approved and not fulfilled.
  pub validate_companion_proposal_state_patch_iff :
      (accepted : StatePatch)
      → (validate_companion_proposal_state_patch patch proposal ≡ ok accepted)
        ↔ ((accepted ≡ patch) × Reports patch proposal)
  validate_companion_proposal_state_patch_iff accepted = (
    λ h. let p = accepted-Passes h in (p.0, Passes-Reports p.1),
    λ h. Passes-accepted (Reports-Passes h.1) ∙ ap ok (sym h.0),
  )
