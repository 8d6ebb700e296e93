-- ===== src/Approvals.antt =====
-- src/suiteharness/execution/in_memory.py, `InMemoryApprovalStore`: approvals that are stored under
-- the digest of a token and consumed once. The digest (SHA-256 of the token) and the tokens that
-- `secrets` draws are parameters; times are ticks. Every method's critical section is one step.
pub mod Consume
pub mod Traces
mod Tests
use suite_harness.Base.{
  ℕ, String, ◌≡◌, ◌↔◌, Bool, true, false, ◌&&◌, not, Option, none, some, List, [], ◌∷◌, arith, ltb,
  leb, if◌then◌else◌, HasEq, ◌==◌, string_eq, is_some, Result, ok, err,
}
use suite_harness.Base.Dict.{Dict, get, put, remove, has}
use suite_harness.Scopes.{ScopePath, path_eq}
use suite_harness.Tools.{ToolIdentity, identity_eq}

pub record ApprovalTarget : Type 0 where
  pub scope : ScopePath
  pub principal_id : String
  pub run_id : String
  pub call_id : String
  pub tool_identity : ToolIdentity
  pub arguments_digest : String

abbrev pub target_beq : ApprovalTarget → ApprovalTarget → Bool
target_beq a b =
    a.scope == b.scope
    && a.principal_id == b.principal_id
    && a.run_id == b.run_id
    && a.call_id == b.call_id
    && a.tool_identity == b.tool_identity
    && a.arguments_digest == b.arguments_digest

pub target_beq_iff : (a b : ApprovalTarget) → (target_beq a b ≡ true) ↔ (a ≡ b)
target_beq_iff a b = ground (
  arith,
  path_eq.same_iff a.scope b.scope,
  string_eq.same_iff a.principal_id b.principal_id,
  string_eq.same_iff a.run_id b.run_id,
  string_eq.same_iff a.call_id b.call_id,
  identity_eq.same_iff a.tool_identity b.tool_identity,
  string_eq.same_iff a.arguments_digest b.arguments_digest,
)

instance abbrev pub target_eq : HasEq ApprovalTarget
target_eq = record { same = target_beq; same_iff = target_beq_iff }

pub record ApprovalBinding : Type 0 where
  pub target : ApprovalTarget
  pub approved_by : String
  pub issued_at : ℕ
  pub expires_at : ℕ

pub data ApprovalError : Type 0 where
  value_error : ApprovalError

-- `validate_window`
unfoldable pub validate_window : ApprovalBinding → Result ApprovalError ApprovalBinding
validate_window b = if leb b.expires_at b.issued_at then err value_error else ok b

abbrev pub Store : Type 0
Store = Dict String ApprovalBinding

-- What `issue` comes to: the exception, the token with the new store, or that every drawn token
-- was taken and the loop draws on.
pub data Issued : Type 0 where
  rejected : ApprovalError → Issued
  issued : String → Store → Issued
  drawing : Issued

-- The parameter is `sha256(token).hexdigest()`.
module _ (digest : String → String) where
  -- `while True: token = secrets.token_urlsafe(32)`, over the tokens that it draws.
  unfoldable pub fresh_token : Store → List String → Option String
  fresh_token pending [] = none
  fresh_token pending (token ∷ draws) =
      let rest = fresh_token pending draws in
      if has (digest token) pending then rest else some token

  unfoldable pub issue : ℕ → ApprovalBinding → List String → Store → Issued
  unfolding fresh_token
  issue now binding draws pending =
      if ltb now binding.issued_at
      then rejected value_error
      else if leb binding.expires_at now
      then rejected value_error
      else elim (fresh_token pending draws) [
        | none ↦ drawing
        | some token ↦ issued token (put (digest token) binding pending)
      ]

  unfoldable pub consume_found :
      ℕ → String → ApprovalTarget → Store → Option ApprovalBinding → Store × Option ApprovalBinding
  consume_found now key expected pending none = (pending, none)
  consume_found now key expected pending (some binding) =
      if leb binding.expires_at now
      then (remove key pending, none)
      else if not (binding.target == expected)
      then (pending, none)
      else (remove key pending, some binding)

  unfoldable pub consume_if_matches :
      ℕ → String → ApprovalTarget → Store → Store × Option ApprovalBinding
  unfolding consume_found
  consume_if_matches now token expected pending =
      let key = digest token in consume_found now key expected pending (get key pending)

  unfoldable pub revoke : String → Store → Store × Bool
  revoke token pending = (remove (digest token) pending, has (digest token) pending)
