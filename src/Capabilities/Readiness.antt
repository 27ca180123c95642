-- ===== src/Capabilities/Readiness.antt =====
-- runtimeHostHasTools: what a host has to offer for the tools that a command requires.
use yuex.Prelude.{String, some, List, [], ◌∷◌, ◌≡◌, ◌⊎◌, trim_space}
use yuex.Capabilities.{ToolCapability, ToolContract, runtime_tool_contract_for}

-- One of the three names that agents may use.
abbrev pub AgentFacing : String → Type 0
AgentFacing name =
    (trim_space name ≡ "read")
    ⊎ (trim_space name ≡ "write")
    ⊎ (trim_space name ≡ "workspace_search")

-- The tool has the name, is ready, and carries the five fields of the program's contract for it, spaces
-- around them aside.
pub record Serves (name : String) (tool : ToolCapability) : Type 0 where
  pub contract : ToolContract
  pub named : tool.name ≡ name
  pub known : runtime_tool_contract_for name ≡ some contract
  pub is_ready : tool.status ≡ "ready"
  pub same_source : trim_space tool.source ≡ contract.source
  pub same_plugin : trim_space tool.plugin_id ≡ contract.plugin_id
  pub same_version : trim_space tool.plugin_version ≡ contract.plugin_version
  pub same_schema : trim_space tool.schema_id ≡ contract.schema_id
  pub same_hash : trim_space tool.schema_hash ≡ contract.schema_hash

-- Some element of the list has the property.
abbrev pub Listed {ℓ} : {A : Type ℓ} → (A → Type 0) → List A → Type 0
Listed P [] = ⊥
Listed P (x ∷ xs) = P x ⊎ Listed P xs
