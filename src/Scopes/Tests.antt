-- ===== src/Scopes/Tests.antt =====
-- Scope paths at concrete inputs.
use suite_harness.Base.{◌≡◌, refl, none, some, err}
use suite_harness.Base.Names.{is_identifier}
use suite_harness.Scopes.{ScopeKind, scope_path, bad_identifier, product_with_agent}

empty_tenant : scope_path ScopeKind.tenant (some "") none none none ≡ err bad_identifier
unfolding scope_path is_identifier
empty_tenant = refl

agent_in_product :
    scope_path ScopeKind.product (some "t") (some "p") (some "a") none ≡ err product_with_agent
unfolding scope_path is_identifier
agent_in_product = refl
