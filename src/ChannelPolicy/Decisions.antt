-- ===== src/ChannelPolicy/Decisions.antt =====
-- What the policy of src/suiteharness/channels/policy.py decides per channel.
use suite_harness.Base.{
  String, ◌≡◌, ◌≢◌, refl, ap, sym, ◌∙◌, ◌⊎◌, inl, inr, true, false, some, List, [], ◌∷◌, ◌++◌,
  arith, any, length, take, drop, take-append-drop_self, if◌then◌else◌, Bool-cases, Option-cases,
  string_eq, option_eq, same→eq, ne_of_beq, ◌==◌, ok,
}
use suite_harness.Base.Json.{Json, null, text, Fields}
use suite_harness.Base.Names.{codes}
use suite_harness.Scopes.{RequestScope}
use suite_harness.Tools.{ToolIdentity, ToolSpec, destructive, has_effect, is_read, validate_effects}
use suite_harness.Tools.Effects.{effects_exclusive}
use suite_harness.ChannelPolicy.{
  Part, parts, WorkspaceWriteRule, permits, starts_with, space_text, default, allow,
  require_approval, deny, argument, is_builtin_file_write, evaluate_feishu, evaluate,
}
use suite_harness.ChannelPolicy.Paths.{parts_beq→eq, IsAccepted, parts-IsAccepted}

-- A path below the root of a rule: its parts continue those of the root, and it is accepted.
pub record IsBelow (rule : WorkspaceWriteRule) (space path : Json) : Type 0 where
  pub value : String
  pub configured : List Part
  pub below : List Part
  pub is_text : path ≡ text value
  pub same_space : space_text space ≡ some rule.space
  pub root : parts (text rule.path) true ≡ some configured
  pub requested : parts (text value) false ≡ some (configured ++ below)
  pub accepted : IsAccepted (codes value) (configured ++ below)

starts_with-append :
    (configured requested : List Part)
    → starts_with configured requested ≡ true
    → requested ≡ configured ++ drop (length configured) requested
starts_with-append configured requested h =
    sym (take-append-drop_self (length configured) requested)
    ∙ ap (λ (p : List Part). p ++ drop (length configured) requested)
        (parts_beq→eq (take (length configured) requested) configured h)

permits-IsBelow :
    (rule : WorkspaceWriteRule) (space : Json) (value : String)
    → permits rule space (text value) ≡ true
    → IsBelow rule space (text value)
unfolding permits
permits-IsBelow rule space value h = elim (Option-cases (parts (text rule.path) true)) [
  | inl bad ↦ absurd (ground (arith, h, bad))
  | inr (configured, root) ↦ elim (Option-cases (parts (text value) false)) [
    | inl bad ↦ absurd (ground (arith, h, root, bad))
    | inr (requested, found) ↦
        let split = starts_with-append configured requested (ground (arith, h, root, found)) in
        record {
          value = value;
          configured = configured;
          below = drop (length configured) requested;
          is_text = refl;
          same_space = same→eq (space_text space) (some rule.space) (ground (arith, h));
          root = root;
          requested = rw (← split) found;
          accepted = rw (← split) (parts-IsAccepted value false requested found);
        }
  ]
]

permits_text :
    (rule : WorkspaceWriteRule) (space path : Json)
    → permits rule space path ≡ true
    → IsBelow rule space path
unfolding permits parts
permits_text rule space (text value) h = permits-IsBelow rule space value h
permits_text rule space _ h = absurd (ground (arith, h))

-- One of the rules permits the path.
pub record IsWritable (rules : List WorkspaceWriteRule) (space path : Json) : Type 0 where
  pub before : List WorkspaceWriteRule
  pub rule : WorkspaceWriteRule
  pub others : List WorkspaceWriteRule
  pub configured : rules ≡ before ++ rule ∷ others
  pub below : IsBelow rule space path

any-IsWritable :
    (rules : List WorkspaceWriteRule) (space path : Json)
    → any (λ (r : WorkspaceWriteRule). permits r space path) rules ≡ true
    → IsWritable rules space path
any-IsWritable [] space path h = absurd (ground arith)
any-IsWritable (r ∷ rules) space path h = elim (Bool-cases (permits r space path)) [
  | inl permitted ↦ record {
    before = [];
    rule = r;
    others = rules;
    configured = refl;
    below = permits_text r space path permitted;
  }
  | inr refused ↦
      let w = any-IsWritable rules space path (ground (arith, h, refused)) in
      record {
        before = r ∷ w.before;
        rule = w.rule;
        others = w.others;
        configured = ap (λ (rs : List WorkspaceWriteRule). r ∷ rs) w.configured;
        below = w.below;
      }
]

-- What Feishu lets run that is no read.
pub record IsConfinedWrite (roots : List WorkspaceWriteRule) (identity : ToolIdentity)
    (spec : ToolSpec) (arguments : Fields) : Type 0 where
  pub not_destructive : has_effect destructive spec.effects ≡ false
  pub builtin : is_builtin_file_write identity spec ≡ true
  pub writable :
      IsWritable roots
        (argument "space" (text "product") arguments)
        (argument "path" null arguments)

-- On Feishu a tool that is no read runs only if it is a built-in file write or edit that is not
-- destructive, and its path lies under the root of a configured rule of the same space: the parts
-- of the path continue those of the root, and none of them is empty, `.`, `..` or holds a separator.
pub feishu_write-IsConfinedWrite :
    (roots : List WorkspaceWriteRule) (scope : RequestScope) (identity : ToolIdentity)
    (spec : ToolSpec) (arguments : Fields)
    → scope.channel_id ≡ "feishu"
    → is_read spec ≡ false
    → evaluate roots scope identity spec arguments ≡ allow
    → IsConfinedWrite roots identity spec arguments
unfolding evaluate
feishu_write-IsConfinedWrite roots scope identity spec arguments c w h =
    let web : (scope.channel_id == "web") ≡ false = rw c refl in
    let feishu : (scope.channel_id == "feishu") ≡ true = rw c refl in
    let allowed : evaluate_feishu roots identity spec arguments ≡ allow =
      ground (arith, web, feishu, h) in
    record {
      not_destructive = unfold evaluate_feishu in ground (arith, allowed);
      builtin = unfold evaluate_feishu in ground (arith, w, allowed);
      writable =
          any-IsWritable roots (argument "space" (text "product") arguments)
            (argument "path" null arguments) (unfold evaluate_feishu in ground (arith, w, allowed));
    }

feishu_decides :
    (roots : List WorkspaceWriteRule) (identity : ToolIdentity) (spec : ToolSpec)
    (arguments : Fields)
    → validate_effects spec.effects ≡ ok tt
    → let decision = evaluate_feishu roots identity spec arguments in
      (decision ≡ allow) ⊎ ((decision ≡ deny) × (is_read spec ≡ false))
unfolding evaluate_feishu
feishu_decides roots identity spec arguments v =
    let x = effects_exclusive spec v in ground (arith, x.0, x.2)

-- What each channel can decide: Web runs exactly the tools that are reads and asks for the others,
-- Feishu runs every read and never asks, and the policy leaves all other channels to the default.
pub evaluate_by_channel :
    (roots : List WorkspaceWriteRule) (scope : RequestScope) (identity : ToolIdentity)
    (spec : ToolSpec) (arguments : Fields)
    → validate_effects spec.effects ≡ ok tt
    → let decision = evaluate roots scope identity spec arguments in
      ((scope.channel_id ≡ "web") × (decision ≡ (if is_read spec then allow else require_approval)))
      ⊎ ((scope.channel_id ≡ "feishu")
          × ((decision ≡ allow) ⊎ ((decision ≡ deny) × (is_read spec ≡ false))))
      ⊎ ((scope.channel_id ≢ "web") × (scope.channel_id ≢ "feishu") × (decision ≡ default))
unfolding evaluate
evaluate_by_channel roots scope identity spec arguments v =
    let x = effects_exclusive spec v in
    let web = string_eq.same_iff scope.channel_id "web" in
    let feishu = string_eq.same_iff scope.channel_id "feishu" in
    elim (Bool-cases (scope.channel_id == "web")) [
      | inl is_web ↦ inl (web.0 is_web, ground (arith, is_web, x.0, x.2))
      | inr not_web ↦ elim (Bool-cases (scope.channel_id == "feishu")) [
        | inl is_feishu ↦
            let same : evaluate roots scope identity spec arguments
                ≡ evaluate_feishu roots identity spec arguments =
              ground (arith, not_web, is_feishu) in
            inr (inl (feishu.0 is_feishu, rw same (feishu_decides roots identity spec arguments v)))
        | inr neither ↦ inr (
            inr (
              ne_of_beq scope.channel_id "web" not_web,
              ne_of_beq scope.channel_id "feishu" neither,
              ground (arith, not_web, neither),
            ))
      ]
    ]
