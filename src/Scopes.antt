-- ===== src/Scopes.antt =====
-- src/suiteharness/runtime/scopes.py: scope paths and request scopes.
pub mod Paths
mod Tests
use suite_harness.Base.{
  String, ◌≡◌, ◌↔◌, Bool, true, false, ◌&&◌, ◌||◌, not, Option, none, some, List, [], ◌∷◌, arith,
  HasEq, ◌==◌, string_eq, option_eq, is_some, if◌then◌else◌, Result, ok, err, ◌>>=◌, ◌>>◌, require,
}
use suite_harness.Base.Names.{is_identifier}

pub data ScopeKind : Type 0 where
  root tenant product agent : ScopeKind

abbrev pub kind_beq : ScopeKind → ScopeKind → Bool
kind_beq root root = true
kind_beq tenant tenant = true
kind_beq product product = true
kind_beq agent agent = true
kind_beq _ _ = false

-- A `ScopePath`: the four shapes that its constructor lets through.
pub data ScopePath : Type 0 where
  root_path : ScopePath
  tenant_path : String → ScopePath
  product_path : String → String → ScopePath
  agent_path : String → String → String → String → ScopePath

pub data ScopeError : Type 0 where
  bad_identifier : ScopeError
  root_with_children : ScopeError
  tenant_with_children : ScopeError
  product_with_agent : ScopeError

-- `_identifier`, on a value that may be `None`
unfoldable pub identifier : Option String → Result ScopeError String
identifier none = err bad_identifier
identifier (some s) = if_valid (is_identifier s) s
  where
    if_valid : Bool → String → Result ScopeError String
    if_valid true s = ok s
    if_valid false s = err bad_identifier

-- The constructor with `__post_init__`.
unfoldable pub scope_path :
    ScopeKind
    → Option String
    → Option String
    → Option String
    → Option String
    → Result ScopeError ScopePath
unfolding identifier
scope_path root t p a s = do
  require (not (is_some t || is_some p || is_some a || is_some s)) root_with_children
  ok root_path
scope_path tenant t p a s = do
  t ← identifier t
  require (not (is_some p || is_some a || is_some s)) tenant_with_children
  ok (tenant_path t)
scope_path product t p a s = do
  t ← identifier t
  p ← identifier p
  require (not (is_some a || is_some s)) product_with_agent
  ok (product_path t p)
scope_path agent t p a s = do
  t ← identifier t
  p ← identifier p
  a ← identifier a
  s ← identifier s
  ok (agent_path t p a s)

unfoldable pub kind : ScopePath → ScopeKind
kind root_path = root
kind (tenant_path t) = tenant
kind (product_path t p) = product
kind (agent_path t p a s) = agent

unfoldable pub tenant_id : ScopePath → Option String
tenant_id root_path = none
tenant_id (tenant_path t) = some t
tenant_id (product_path t p) = some t
tenant_id (agent_path t p a s) = some t

unfoldable pub product_id : ScopePath → Option String
product_id (product_path t p) = some p
product_id (agent_path t p a s) = some p
product_id _ = none

unfoldable pub agent_id : ScopePath → Option String
agent_id (agent_path t p a s) = some a
agent_id _ = none

unfoldable pub session_id : ScopePath → Option String
session_id (agent_path t p a s) = some s
session_id _ = none

unfoldable pub parent : ScopePath → Option ScopePath
parent root_path = none
parent (tenant_path t) = some root_path
parent (product_path t p) = some (tenant_path t)
parent (agent_path t p a s) = some (product_path t p)

-- Dataclass equality compares the fields.
unfoldable pub path_beq : ScopePath → ScopePath → Bool
unfolding kind tenant_id product_id agent_id session_id
path_beq x y =
    kind_beq (kind x) (kind y)
    && tenant_id x == tenant_id y
    && product_id x == product_id y
    && agent_id x == agent_id y
    && session_id x == session_id y

pub path_beq_iff : (x y : ScopePath) → (path_beq x y ≡ true) ↔ (x ≡ y)
unfolding path_beq
path_beq_iff root_path root_path = ground arith
path_beq_iff (tenant_path t) (tenant_path t') = ground (arith, string_eq.same_iff t t')
path_beq_iff (product_path t p) (product_path t' p') =
    ground (arith, string_eq.same_iff t t', string_eq.same_iff p p')
path_beq_iff (agent_path t p a s) (agent_path t' p' a' s') = ground (
  arith,
  string_eq.same_iff t t',
  string_eq.same_iff p p',
  string_eq.same_iff a a',
  string_eq.same_iff s s',
)
path_beq_iff _ _ = ground arith

instance abbrev pub path_eq : HasEq ScopePath
path_eq = record { same = path_beq; same_iff = path_beq_iff }

-- A `RequestScope`; `roles`, `purpose` and the tracing ids do not enter the modelled decisions.
pub record RequestScope : Type 0 where
  pub path : ScopePath
  pub principal_id : String
  pub channel_id : String
  pub session_owner_id : Option String

-- `session_owner_id or principal_id`: an empty text is false, too.
unfoldable pub effective_session_owner_id : RequestScope → String
effective_session_owner_id r = elim r.session_owner_id [
  | none ↦ r.principal_id
  | some o ↦ if o == "" then r.principal_id else o
]
