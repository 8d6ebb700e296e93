-- ===== src/Grants/Model.antt =====
-- src/suiteharness/execution/models.py: capability grants and their validation.
use suite_harness.Base.{
  ℕ, String, Bool, true, false, ◌&&◌, ◌||◌, not, Option, none, some, List, [], ◌∷◌, leb, ltb,
  nat_beq, string_eq, pair_eq, option_eq, all, Result, ◌>>◌, require,
}
use suite_harness.Base.Names.{codes, is_identifier}
use suite_harness.Tools.{ToolIdentity, identity_eq}

pub record CapabilityGrant : Type 0 where
  pub grant_id : String
  pub tenant_id : String
  pub product_id : String
  pub tool_identities : List ToolIdentity
  pub capabilities : List String
  pub principal_id : Option String
  pub issued_at : ℕ
  pub expires_at : ℕ

pub data GrantError : Type 0 where
  value_error : GrantError

abbrev is_lower_alphanumeric : ℕ → Bool
is_lower_alphanumeric c = leb b'a' c && leb c b'z' || leb b'0' c && leb c b'9'

abbrev is_separator : ℕ → Bool
is_separator c =
    nat_beq c b'.' || nat_beq c b'_' || nat_beq c b':' || nat_beq c b'/' || nat_beq c b'-'

-- The rest of a name, after a separator or not.
abbrev name_rest : Bool → List ℕ → Bool
name_rest separated [] = not separated
name_rest separated (c ∷ cs) =
    name_rest (is_separator c) cs && (is_lower_alphanumeric c || is_separator c && not separated)

-- `^[a-z][a-z0-9]*(?:[._:/-][a-z0-9]+)*$`
unfoldable pub is_name : String → Bool
is_name s = elim (codes s) [ [] ↦ false | c ∷ cs ↦ leb b'a' c && leb c b'z' && name_rest false cs ]

-- The validators of `CapabilityGrant`.
unfoldable pub validate_grant : CapabilityGrant → Result GrantError (Unit {0})
unfolding is_name
validate_grant g =
    require (is_identifier g.grant_id && is_identifier g.tenant_id && is_identifier g.product_id)
      value_error
    >> require (elim g.principal_id [ none ↦ true | some p ↦ is_identifier p ]) value_error
    >> require (all is_name g.capabilities) value_error
    >> require (ltb g.issued_at g.expires_at) value_error
