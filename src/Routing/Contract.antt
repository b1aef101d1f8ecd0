-- ===== src/Routing/Contract.antt =====
-- wf-engine/internal/routing/contract.go: the routing vocabulary and its validation.
use Prim.Native.Char.{code}
use Prim.Native.String.{len}
use fishyume.Base.{ℕ, String, Bool, true, false, ◌&&◌, ◌||◌, List, [], ◌∷◌, Outcome, leb, ◌==◌}
use fishyume.Base.Int.{ℤ, pos}

pub data ErrorCode : Type 0 where
  invalid_contract unsupported_version duplicate_identity invalid_target : ErrorCode
  invalid_capability invalid_budget invalid_fallback : ErrorCode
  invalid_prompt_profile catalog_hash_mismatch : ErrorCode

-- `ContractError` without its message.
pub record ContractError : Type 0 where
  pub code : ErrorCode
  pub subject_id : String

abbrev pub contract_error : ErrorCode → String → ContractError
contract_error c subject = record { code = c; subject_id = subject }

abbrev pub Checked : Type 0
Checked = Outcome ContractError (Unit {0})

-- The string types: the declared constants, and any other text.
pub data Complexity : Type 0 where
  simple standard complex : Complexity
  other : String → Complexity

pub data QualityClass : Type 0 where
  economy balanced premium : QualityClass
  other : String → QualityClass

pub data CostClass : Type 0 where
  low medium high : CostClass
  other : String → CostClass

pub data LatencyClass : Type 0 where
  fast balanced slow : LatencyClass
  other : String → LatencyClass

pub data FallbackMode : Type 0 where
  no_fallback eligible : FallbackMode
  other : String → FallbackMode

pub record Target : Type 0 where
  pub driver : String
  pub provider : String
  pub model : String

pub record ModelCapability : Type 0 where
  pub id : String
  pub target : Target
  pub capabilities : List String
  pub context_limit_bytes : ℤ
  pub max_output_bytes : ℤ
  pub quality : QualityClass
  pub cost : CostClass
  pub latency : LatencyClass
  pub supports_cancellation : Bool

pub record CapabilityCatalog : Type 0 where
  pub schema_version : String
  pub policy_version : String
  pub models : List ModelCapability

pub record RoutingRequirement : Type 0 where
  pub schema_version : String
  pub capabilities : List String
  pub complexity : Complexity
  pub quality : QualityClass
  pub latency : LatencyClass
  pub max_cost_units : ℤ
  pub max_context_bytes : ℤ
  pub max_output_bytes : ℤ
  pub candidates : List String
  pub prompt_profile : String
  pub allow_model_fallback : Bool

pub record BudgetGrant : Type 0 where
  pub max_cost_units : ℤ
  pub context_bytes : ℤ
  pub output_bytes : ℤ

pub record FallbackPolicy : Type 0 where
  pub mode : FallbackMode
  pub max_attempts : ℤ
  pub require_no_side_effect : Bool
  pub require_approval : Bool

pub record RoutingDecision : Type 0 where
  pub schema_version : String
  pub catalog_hash : String
  pub requirement : RoutingRequirement
  pub selected : Target
  pub reason_codes : List String
  pub budget : BudgetGrant
  pub fallback : List Target
  pub fallback_policy : FallbackPolicy
  pub prompt_profile : String

abbrev pub max_catalog_models : ℕ
max_catalog_models = 256

abbrev pub max_candidates : ℕ
max_candidates = 32

abbrev pub max_fallbacks : ℕ
max_fallbacks = 8

abbrev pub max_reason_codes : ℕ
max_reason_codes = 32

abbrev pub max_routing_budget_bytes : ℤ
max_routing_budget_bytes = pos 16_777_216

abbrev pub max_cost_units : ℤ
max_cost_units = pos 1_000_000

abbrev pub stable_capabilities : List String
stable_capabilities =
    "repo_read" ∷ "repo_edit" ∷ "tool_use" ∷ "structured_output" ∷ "streaming" ∷ "needs_input" ∷ []

abbrev is_lower : ℕ → Bool
is_lower c = leb b'a' c && leb c b'z'

abbrev is_digit : ℕ → Bool
is_digit c = leb b'0' c && leb c b'9'

-- The character class `[a-z0-9._:/-]`.
is_identity_rest : ℕ → Bool
is_identity_rest c =
    is_lower c || is_digit c || c == b'.' || c == b'_' || c == b':' || c == b'/' || c == b'-'

-- The character class `[a-z0-9._-]`.
is_reason_rest : ℕ → Bool
is_reason_rest c = is_lower c || is_digit c || c == b'.' || c == b'_' || c == b'-'

all_chars : (ℕ → Bool) → String → Bool
all_chars p String.[] = true
all_chars p (String.◌∷◌ c s) = p (code c) && all_chars p s

-- A pattern `^[a-z]X{0,most}$`; its characters are all ASCII, so `len` counts them.
pattern_matches : (ℕ → Bool) → ℕ → String → Bool
pattern_matches p most String.[] = false
pattern_matches p most (String.◌∷◌ c s) = is_lower (code c) && all_chars p s && leb (len s) most

unfoldable pub valid_identity : String → Bool
unfolding pattern_matches all_chars is_identity_rest
valid_identity = pattern_matches is_identity_rest 127

unfoldable pub valid_reason_code : String → Bool
unfolding pattern_matches all_chars is_reason_rest
valid_reason_code = pattern_matches is_reason_rest 63

unfoldable pub valid_target : Target → Bool
unfolding valid_identity
valid_target t = valid_identity t.driver && valid_identity t.provider && valid_identity t.model

is_hex : ℕ → Bool
is_hex c = is_digit c || (leb b'a' c && leb c b'f') || (leb b'A' c && leb c b'F')

-- 64 bytes that `hex.DecodeString` accepts.
unfoldable pub valid_hash : String → Bool
unfolding all_chars is_hex
valid_hash s = len s == 64 && all_chars is_hex s

abbrev pub valid_complexity : Complexity → Bool
valid_complexity (Complexity.other s) = false
valid_complexity _ = true

abbrev pub valid_quality : QualityClass → Bool
valid_quality (QualityClass.other s) = false
valid_quality _ = true

abbrev pub valid_cost : CostClass → Bool
valid_cost (CostClass.other s) = false
valid_cost _ = true

abbrev pub valid_latency : LatencyClass → Bool
valid_latency (LatencyClass.other s) = false
valid_latency _ = true
