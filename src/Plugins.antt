-- ===== src/Plugins.antt =====
-- src/suiteharness/plugins/graph.py, `PluginPlanner`, with the manifests of plugins/models.py that it
-- reads: which plugins are started, in which order, and which provider each requirement is bound
-- to. The version rules of the `packaging` library are parameters. A heap of texts is a sorted list.
pub mod Graph
pub mod Planner
pub mod Edges
pub mod Counted
pub mod Released
pub mod Ordering
pub mod Initial
pub mod Connected
pub mod Indexed
pub mod Plans
pub mod Complete
mod Tests
use suite_harness.Base.{ℕ, String, Bool, Option, List}

-- `ProvidedService` and `RequiredService`
pub record ProvidedService : Type 0 where
  pub service : String
  pub version : String

pub record RequiredService : Type 0 where
  pub service : String
  pub version : String
  pub optional : Bool

-- `PluginManifest`, as far as the planner reads it; a contribution is its kind and its id.
pub record PluginManifest : Type 0 where
  pub plugin_id : String
  pub version : String
  pub harness_api : String
  pub provides : List ProvidedService
  pub requires : List RequiredService
  pub contributions : List (String × String)

-- `VerifiedPluginSource`; `attested` says whether the configured discovery has produced it.
pub record VerifiedPluginSource : Type 0 where
  pub manifest : PluginManifest
  pub digest : String
  pub attested : Bool

pub record ResolvedRequirement : Type 0 where
  pub requirement : RequiredService
  pub provider_plugin_id : Option String

-- `PluginErrorCode`
pub data PluginErrorCode : Type 0 where
  path_not_allowed invalid_source invalid_manifest digest_mismatch : PluginErrorCode
  signature_rejected trust_rejected harness_api_mismatch duplicate_plugin : PluginErrorCode
  duplicate_provider missing_provider provider_version_mismatch : PluginErrorCode
  dependency_cycle contribution_conflict invalid_exports invalid_contribution : PluginErrorCode
  unsupported_trust_mode already_active not_active : PluginErrorCode
  activation_failed cleanup_failed : PluginErrorCode
