-- ===== src/Ops/Patch.antt =====
-- lib/companion-proposal-state.js: what the executor may report on a proposal.
use portfolio_manager.Base.{
  String, Bool, true, false, not, ◌&&◌, Option, none, some, List, [], ◌∷◌, any, all, if◌then◌else◌,
  Outcome, ok, throw_if, ◌>>◌,
}
use portfolio_manager.Base.Int.{pos, ltb_ℤ}
use portfolio_manager.Base.Money.{Num}
use portfolio_manager.Base.Text.{◌=s=◌, trim, is_empty}

-- A value of a JSON object, with what `Number(value)` gives for one that is neither.
pub data Value : Type 0 where
  null : Value
  text : String → Num → Value
  number : Num → Value
  other : Num → Value

-- The object, a key once.
abbrev pub StatePatch : Type 0
StatePatch = List (String × Value)

pub data PatchError : Type 0 where
  forbidden_field bad_status bad_execution_state bad_text bad_number not_reportable : PatchError

abbrev pub string_fields : List String
string_fields =
    "executionStartedAt" ∷ "executionOrderId" ∷ "executionFailedAt" ∷ "executionFailureReason" ∷ []

abbrev pub allowed_fields : List String
allowed_fields =
    "status" ∷ "executionState" ∷ "executionStartedAt" ∷ "executionOrderId" ∷ "executionShares"
    ∷ "executionPrice" ∷ "executionFailedAt" ∷ "executionFailureReason" ∷ []

unfoldable pub is_allowed : String × Value → Bool
is_allowed entry = any (λ f. f =s= entry.0) allowed_fields

-- `patch[field]`, a missing one being null
unfoldable pub field_of : String → StatePatch → Value
field_of f [] = null
field_of f (entry ∷ patch) = if entry.0 =s= f then entry.1 else field_of f patch

-- `value == null ||` it is one of the texts
unfoldable pub null_or_one_of : List String → Value → Bool
null_or_one_of texts null = true
null_or_one_of texts (text s n) = any (λ t. t =s= s) texts
null_or_one_of texts (number n) = false
null_or_one_of texts (other n) = false

unfoldable pub null_or_text : Value → Bool
null_or_text null = true
null_or_text (text s n) = not (is_empty (trim s))
null_or_text (number n) = false
null_or_text (other n) = false

abbrev pub is_positive : Num → Bool
is_positive none = false
is_positive (some x) = ltb_ℤ (pos 0) x

unfoldable pub null_or_positive : Value → Bool
null_or_positive null = true
null_or_positive (text s n) = is_positive n
null_or_positive (number n) = is_positive n
null_or_positive (other n) = is_positive n

pub record ProposalState : Type 0 where
  pub status : String
  pub fulfilled_at : Option String

-- An empty time of fulfilment is none.
abbrev pub is_reportable : Option ProposalState → Bool
is_reportable none = true
is_reportable (some p) =
    p.status =s= "ApprovedForBrokerReview"
    && (elim p.fulfilled_at [ none ↦ true | some at ↦ is_empty at ])

abbrev pub has_entries : StatePatch → Bool
has_entries [] = false
has_entries (e ∷ es) = true

unfoldable pub validate_companion_proposal_state_patch :
    StatePatch → Option ProposalState → Outcome PatchError StatePatch
validate_companion_proposal_state_patch patch proposal = do
  throw_if (not (has_entries patch && all is_allowed patch)) forbidden_field
  throw_if (not (null_or_one_of ("ExecutionFailed" ∷ []) (field_of "status" patch))) bad_status
  throw_if
      (not (null_or_one_of ("Executing" ∷ "BrokerRejected" ∷ []) (field_of "executionState" patch)))
      bad_execution_state
  throw_if (not (all (λ f. null_or_text (field_of f patch)) string_fields)) bad_text
  throw_if
      (not (
        all (λ f. null_or_positive (field_of f patch)) ("executionShares" ∷ "executionPrice" ∷ [])))
      bad_number
  throw_if (not (is_reportable proposal)) not_reportable
  ok patch
