-- ===== src/Scopes/Paths.antt =====
-- Scope paths, their fields and their constructor.
use suite_harness.Base.{String, ◌≡◌, refl, true, Option, arith, ok}
use suite_harness.Base.Names.{is_identifier}
use suite_harness.Scopes.{
  ScopeKind, root, tenant, product, agent, ScopePath, root_path, tenant_path, product_path,
  agent_path, scope_path, kind, tenant_id, product_id, agent_id, session_id,
}

-- Every identifier of the path is well formed.
abbrev pub IsValid : ScopePath → Type 0
IsValid root_path = Unit {0}
IsValid (tenant_path t) = is_identifier t ≡ true
IsValid (product_path t p) = (is_identifier t ≡ true) × (is_identifier p ≡ true)
IsValid (agent_path t p a s) =
    (is_identifier t ≡ true)
    × (is_identifier p ≡ true)
    × (is_identifier a ≡ true)
    × (is_identifier s ≡ true)

-- `x` has the kind `k` and the fields `t`, `p`, `a` and `s`, and its identifiers are well formed.
pub record HasFields (x : ScopePath) (k : ScopeKind) (t p a s : Option String) : Type 0 where
  pub has_kind : kind x ≡ k
  pub has_tenant : tenant_id x ≡ t
  pub has_product : product_id x ≡ p
  pub has_agent : agent_id x ≡ a
  pub has_session : session_id x ≡ s
  pub valid : IsValid x

-- A scope path that the constructor returns has exactly the kind and the fields that were passed,
-- none dropped and none added, and every identifier in it is well formed.
pub scope_path-HasFields :
    (k : ScopeKind) (t p a s : Option String) (x : ScopePath)
    → scope_path k t p a s ≡ ok x
    → HasFields x k t p a s
unfolding scope_path kind tenant_id product_id agent_id session_id
scope_path-HasFields root t p a s root_path h = ground arith
scope_path-HasFields tenant t p a s (tenant_path t') h = ground arith
scope_path-HasFields product t p a s (product_path t' p') h = ground arith
scope_path-HasFields agent t p a s (agent_path t' p' a' s') h = ground arith
scope_path-HasFields _ t p a s _ h = absurd (ground arith)

-- Every path with well-formed identifiers can be built from its own kind and fields.
pub scope_path-fields :
    (x : ScopePath)
    → IsValid x
    → scope_path (kind x) (tenant_id x) (product_id x) (agent_id x) (session_id x) ≡ ok x
unfolding scope_path kind tenant_id product_id agent_id session_id
scope_path-fields root_path h = refl
scope_path-fields (tenant_path t) h = ground arith
scope_path-fields (product_path t p) h = ground arith
scope_path-fields (agent_path t p a s) h = ground arith
