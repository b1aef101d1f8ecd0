-- ===== src/Run/Action.antt =====
-- wf-engine/internal/run/service.go: the actions that a resume may carry and their validation, and the
-- answers to the questions of a waiting agent. `encode` stands for the JSON encoding of the answers.
use fishyume.Base.{
  String, Bool, true, false, not, ◌&&◌, ◌||◌, List, [], ◌∷◌, Option, none, some, Outcome, ok, err,
  ◌>>◌, reject_if, str_eq, contains, is_nil, if◌then◌else◌,
}
use fishyume.Base.Int.{ℤ, pos, ltz}
use fishyume.Base.Text.{is_empty}
use fishyume.Base.Assoc.{lookup}
use fishyume.Workflow.Model.{Scalar, null, InputQuestion}

pub record ResumeAction : Type 0 where
  pub action_id : String
  pub action_request_hash : String
  pub type : String
  pub node_id : String
  pub expected_attempt : Option ℤ
  pub reason : String
  pub answers : List (String × Scalar)
  pub acknowledge_duplicate_risk : Bool

pub data RequestError : Type 0 where
  missing_node unknown_action unexpected_fields missing_attempt : RequestError

abbrev is_attempt : Option ℤ → Bool
is_attempt none = false
is_attempt (some n) = not (ltz n (pos 1))

-- The `switch` on the type of the action.
abbrev check_fields : ResumeAction → (reason_given : Bool) → Outcome RequestError (Unit {0})
check_fields action reason_given =
    if str_eq action.type "approve"
    then reject_if (reason_given || action.acknowledge_duplicate_risk) unexpected_fields
    else if str_eq action.type "reject"
    then reject_if action.acknowledge_duplicate_risk unexpected_fields
    else if str_eq action.type "retry"
    then reject_if reason_given unexpected_fields
    else if str_eq action.type "answer"
    then (reject_if (not (is_attempt action.expected_attempt)) missing_attempt
        >> reject_if (reason_given || action.acknowledge_duplicate_risk) unexpected_fields)
    else err unknown_action

unfoldable pub validate_resume_action : ResumeAction → Outcome RequestError (Unit {0})
validate_resume_action action = do
  reject_if (is_empty action.node_id) missing_node
  check_fields action (not (is_empty action.reason))

pub data AnswerError : Type 0 where
  missing_answer undeclared_choice unknown_question not_a_scalar : (id : String) → AnswerError

abbrev pub Answered : Type 0
Answered = Outcome AnswerError (Unit {0})

-- `validateAnswerScalar`: a text, a number or a Boolean.
abbrev pub is_answer : Scalar → Bool
is_answer null = false
is_answer Scalar.unsupported = false
is_answer _ = true

abbrev pub is_choice : (choices : List String) → Scalar → Bool
is_choice choices (Scalar.text t) = contains choices t
is_choice choices _ = false

-- The rest of the first loop's body.
unfoldable pub check_answer : InputQuestion → Option Scalar → Answered
check_answer question none = reject_if question.required (missing_answer question.id)
check_answer question (some value) = do
  reject_if (not (is_answer value)) (not_a_scalar question.id)
  reject_if (not (is_nil question.choices) && not (is_choice question.choices value))
      (undeclared_choice question.id)

unfoldable pub check_questions : (answers : List (String × Scalar)) → List InputQuestion → Answered
unfolding check_answer
check_questions answers [] = ok tt
check_questions answers (question ∷ questions) = do
  check_answer question (lookup question.id answers)
  check_questions answers questions

-- `byID[id]`, as the set of its keys.
unfoldable pub is_asked : List InputQuestion → (id : String) → Bool
is_asked [] id = false
is_asked (question ∷ questions) id = str_eq question.id id || is_asked questions id

-- The second loop.
unfoldable pub check_answers : List InputQuestion → List (String × Scalar) → Answered
unfolding is_asked
check_answers questions [] = ok tt
check_answers questions ((id, value) ∷ answers) = do
  reject_if (not (is_asked questions id)) (unknown_question id)
  reject_if (not (is_answer value)) (not_a_scalar id)
  check_answers questions answers

unfoldable pub validate_and_encode_answers :
    (encode : ℤ → List InputQuestion → List (String × Scalar) → String)
    → (attempt : ℤ) → List InputQuestion
    → List (String × Scalar)
    → Outcome AnswerError String
unfolding check_questions check_answers
validate_and_encode_answers encode attempt questions answers = do
  check_questions answers questions
  check_answers questions answers
  ok (encode attempt questions answers)
