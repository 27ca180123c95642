-- ===== src/Capabilities.antt =====
-- extracted/go-runtime-control-plane/internal/runtime/runtime_capability_client.go and the tool
-- contracts of capability_planner.go: what a Runtime Host claims that it can do, and the checks
-- that a claim passes at registration and at reservation.
pub mod Readiness
use yuex.Prelude.{
  ℕ, ◌+◌, String, Bool, true, false, not, ◌&&◌, ◌||◌, Option, none, some, List, [], ◌∷◌, ltb, ◌==◌,
  if◌then◌else◌, str_eq, is_blank, trim_space, ErrorCode, runtime_tool_unavailable,
  runtime_tool_budget_unsupported, any,
}

pub record ToolCapability : Type 0 where
  pub name : String
  pub status : String
  pub source : String
  pub plugin_id : String
  pub plugin_version : String
  pub schema_id : String
  pub schema_hash : String

pub record ToolContract : Type 0 where
  pub source : String
  pub plugin_id : String
  pub plugin_version : String
  pub schema_id : String
  pub schema_hash : String

abbrev read_contract : ToolContract
read_contract = record {
  source = "openclaw_core";
  plugin_id = "openclaw-core";
  plugin_version = "2026.6.2";
  schema_id = "openclaw.core.read.v2026.6.2";
  schema_hash = "sha256:134f19bcabe3e29d63c5cebb38f1d2556759fd08adad6bc90a4b4d3cd1fb8441";
}

abbrev write_contract : ToolContract
write_contract = record {
  source = "openclaw_core";
  plugin_id = "openclaw-core";
  plugin_version = "2026.6.2";
  schema_id = "openclaw.core.write.v2026.6.2";
  schema_hash = "sha256:e98a2484f667cf7c22d76ca103bf2022bf9113dc63fe38b899e71c328cb1e833";
}

abbrev workspace_search_contract : ToolContract
workspace_search_contract = record {
  source = "plugin";
  plugin_id = "huahuo-context-tools";
  plugin_version = "0.5.0";
  schema_id = "huahuo.workspace_search.v1";
  schema_hash = "sha256:0cb790780b9b8d1538d54dc309e4377e30c885aff21c2027748b9efefdb20d80";
}

unfoldable pub runtime_tool_contract_for : String → Option ToolContract
runtime_tool_contract_for name =
    let n = trim_space name in
    if str_eq n "read"
    then some read_contract
    else if str_eq n "write"
    then some write_contract
    else if str_eq n "workspace_search"
    then some workspace_search_contract
    else none

unfoldable pub is_agent_facing_runtime_tool : String → Bool
is_agent_facing_runtime_tool name =
    let n = trim_space name in str_eq n "read" || str_eq n "write" || str_eq n "workspace_search"

unfoldable pub ready_against : ToolCapability → Option ToolContract → Bool
ready_against tool none = false
ready_against tool (some contract) =
    str_eq tool.status "ready"
    && str_eq (trim_space tool.source) contract.source
    && str_eq (trim_space tool.plugin_id) contract.plugin_id
    && str_eq (trim_space tool.plugin_version) contract.plugin_version
    && str_eq (trim_space tool.schema_id) contract.schema_id
    && str_eq (trim_space tool.schema_hash) contract.schema_hash

unfoldable pub runtime_tool_capability_ready : ToolCapability → Bool
unfolding ready_against
runtime_tool_capability_ready tool = ready_against tool (runtime_tool_contract_for tool.name)

-- The `switch` on the status: a ready tool carries the contract's hash, a degraded one may leave it
-- out.
status_admissible : ToolCapability → ToolContract → Bool
status_admissible tool contract =
    let status = trim_space tool.status in
    let hash = trim_space tool.schema_hash in
    if str_eq status "ready"
    then str_eq hash contract.schema_hash
    else if str_eq status "degraded"
    then is_blank hash || str_eq hash contract.schema_hash
    else false

contract_admissible : ToolCapability → Option ToolContract → Bool
unfolding status_admissible
contract_admissible tool none = false
contract_admissible tool (some contract) =
    str_eq (trim_space tool.source) contract.source
    && str_eq (trim_space tool.plugin_id) contract.plugin_id
    && str_eq (trim_space tool.plugin_version) contract.plugin_version
    && str_eq (trim_space tool.schema_id) contract.schema_id
    && status_admissible tool contract

-- The loop over the tools; `seen` holds the trimmed names met so far.
validate_tools : List String → List ToolCapability → Option ErrorCode
unfolding contract_admissible
validate_tools seen [] = none
validate_tools seen (tool ∷ tools) =
    let name = trim_space tool.name in
    let rest = validate_tools (name ∷ seen) tools in
    if not (is_agent_facing_runtime_tool name) || any (str_eq name) seen
    then some runtime_tool_unavailable
    else if contract_admissible tool (runtime_tool_contract_for name)
    then rest
    else some runtime_tool_unavailable

unfoldable pub validate_agent_facing_runtime_tools : List ToolCapability → Option ErrorCode
unfolding validate_tools
validate_agent_facing_runtime_tools tools = validate_tools [] tools

pub record SubmitBindingCapability : Type 0 where
  pub version : String
  pub product_session_hash : Bool

unfoldable pub validate_runtime_submit_binding_capability :
    SubmitBindingCapability → Option ErrorCode
validate_runtime_submit_binding_capability capability =
    if not (str_eq capability.version "runtime_submit_binding.v2")
      || not capability.product_session_hash
    then some runtime_tool_unavailable
    else none

pub record BudgetExecutionContract : Type 0 where
  pub enforcement_version : String
  pub tool_execution_event_schema : String
  pub abort_convergence_schema : String
  pub hard_max_tool_calls : ℕ
  pub soft_tool_call_limit : ℕ
  pub finalization_reserve : ℕ
  pub max_repeated_calls : ℕ
  pub max_no_progress_calls : ℕ

abbrev pub default_runtime_tool_budget_execution_contract : BudgetExecutionContract
default_runtime_tool_budget_execution_contract = record {
  enforcement_version = "huahuo.runtime-tool-budget-enforcement.v1";
  tool_execution_event_schema = "huahuo.runtime-tool-execution-event.v1";
  abort_convergence_schema = "huahuo.runtime-abort-convergence-event.v1";
  hard_max_tool_calls = 200;
  soft_tool_call_limit = 160;
  finalization_reserve = 10;
  max_repeated_calls = 2;
  max_no_progress_calls = 4;
}

unfoldable pub validate_runtime_tool_budget_execution_contract :
    BudgetExecutionContract → Option ErrorCode
validate_runtime_tool_budget_execution_contract contract =
    let expected = default_runtime_tool_budget_execution_contract in
    if str_eq contract.enforcement_version expected.enforcement_version
      && str_eq contract.tool_execution_event_schema expected.tool_execution_event_schema
      && str_eq contract.abort_convergence_schema expected.abort_convergence_schema
      && contract.hard_max_tool_calls == expected.hard_max_tool_calls
      && contract.soft_tool_call_limit == expected.soft_tool_call_limit
      && contract.finalization_reserve == expected.finalization_reserve
      && contract.max_repeated_calls == expected.max_repeated_calls
      && contract.max_no_progress_calls == expected.max_no_progress_calls
    then none
    else some runtime_tool_budget_unsupported

pub record CapabilitySnapshot : Type 0 where
  pub capability_hash : ℕ
  pub tools : List ToolCapability
  pub submit_binding : SubmitBindingCapability
  pub max_tool_calls_supported : ℕ
  pub supports_per_run_budget : Bool
  pub supports_budget_warning : Bool
  pub supports_forced_abort : Bool
  pub budget_execution : BudgetExecutionContract

-- The checks in their order; the first that fails gives the error.
first_error : Option ErrorCode → Option ErrorCode → Option ErrorCode
first_error none next = next
first_error (some e) next = some e

unfoldable pub validate_runtime_capability_snapshot : CapabilitySnapshot → Option ErrorCode
unfolding first_error
validate_runtime_capability_snapshot c =
    first_error (validate_runtime_submit_binding_capability c.submit_binding) (
      first_error (validate_agent_facing_runtime_tools c.tools) (
        if ltb c.max_tool_calls_supported 200
          || not c.supports_per_run_budget
          || not c.supports_budget_warning
          || not c.supports_forced_abort
        then some runtime_tool_budget_unsupported
        else validate_runtime_tool_budget_execution_contract c.budget_execution))

-- The map `ready` that runtimeHostHasTools fills: of two tools with one name the later counts.
unfoldable pub ready_under : String → Bool → List ToolCapability → Bool
ready_under name found [] = found
ready_under name found (tool ∷ tools) =
    ready_under name (if str_eq tool.name name then runtime_tool_capability_ready tool else found)
      tools

unfoldable pub has_tools : List ToolCapability → List String → Bool
has_tools tools [] = true
has_tools tools (name ∷ required) =
    is_agent_facing_runtime_tool name && ready_under name false tools && has_tools tools required
