-- ===== src/Workflow/Model.antt =====
-- wf-engine/internal/workflow/model.go: documents, nodes, conditions and results.
use fishyume.Base.{String, Bool, true, false, List, [], Option, none, some, Outcome, ok, err}
use fishyume.Base.Int.{ℤ}
use fishyume.Base.Assoc.{lookup}
use fishyume.Routing.Contract.{RoutingRequirement}

-- What an `any` of a document holds: a text, a Boolean, a `json.Number` or a Go number (both by
-- their text), nothing, or a value that is no scalar.
pub data Scalar : Type 0 where
  null unsupported : Scalar
  text : String → Scalar
  boolean : Bool → Scalar
  number : String → Scalar

pub data ScalarError : Type 0 where
  null_scalar unsupported_scalar : ScalarError

-- A number is held as the decimal text that the source makes of each of Go's number types here.
unfoldable pub normalize_scalar : Scalar → Outcome ScalarError Scalar
normalize_scalar null = err null_scalar
normalize_scalar unsupported = err unsupported_scalar
normalize_scalar s = ok s

abbrev pub is_null : Scalar → Bool
is_null null = true
is_null _ = false

-- A condition has all fields at once, as in the source: `All` and `Any` may be nil, which differs
-- from the empty group, and `Not` may be nil.
mutual
  pub data Condition : Type 0 where
    condition :
        (node field : String) (equals : Scalar) (all any : Group) (negated : Negation) → Condition

  pub data Group : Type 0 where
    absent : Group
    group : Conditions → Group

  pub data Conditions : Type 0 where
    end : Conditions
    also : Condition → Conditions → Conditions

  pub data Negation : Type 0 where
    unset : Negation
    negate : Condition → Negation

pub record Usage : Type 0 where
  pub input_tokens_estimated : ℤ
  pub output_tokens_estimated : ℤ

pub record InputQuestion : Type 0 where
  pub id : String
  pub prompt : String
  pub choices : List String
  pub required : Bool

pub record Result : Type 0 where
  pub summary : String
  pub artifacts : List String
  pub warnings : List String
  pub checks : List String
  pub questions : List InputQuestion
  pub usage : Usage
  pub decision : String
  pub reason : String

pub record ContextPolicy : Type 0 where
  pub project_instructions : List String
  pub dependencies : List String

pub record InputDeclaration : Type 0 where
  pub required : Bool
  pub default : Scalar

pub record AgentSelection : Type 0 where
  pub driver : String
  pub target : String
  pub routing : Option RoutingRequirement

pub record Defaults : Type 0 where
  pub agent : AgentSelection
  pub backend : String
  pub tool : String
  pub runtime : String

pub record Node : Type 0 where
  pub type : String
  pub depends_on : List String
  pub when : Option Condition
  pub task : String
  pub prompt : String
  pub agent : AgentSelection
  pub tool : String
  pub runtime : String
  pub required_skills : List String
  pub context : Option ContextPolicy

pub record Document : Type 0 where
  pub api_version : String
  pub name : String
  pub inputs : List (String × InputDeclaration)
  pub defaults : Defaults
  pub max_concurrency : ℤ
  pub context : Option ContextPolicy
  pub nodes : List (String × Node)

-- The fields of `Normalized` that the engine schedules by.
pub record Normalized : Type 0 where
  pub document : Document
  pub topological_order : List String

-- Go's zero values, which a missing key of a map gives.
abbrev pub no_selection : AgentSelection
no_selection = record { driver = ""; target = ""; routing = none }

abbrev pub zero_node : Node
zero_node = record {
  type = "";
  depends_on = [];
  when = none;
  task = "";
  prompt = "";
  agent = no_selection;
  tool = "";
  runtime = "";
  required_skills = [];
  context = none;
}

abbrev pub or_zero : Option Node → Node
or_zero none = zero_node
or_zero (some n) = n

-- `doc.Nodes[id]`
unfoldable pub node_of : Document → String → Node
node_of doc id = or_zero (lookup id doc.nodes)
