-- ===== src/Runner/Trusted.antt =====
-- The effects of the tools that a resumed run may call.
use suite_harness.Base.{
  String, ◌≡◌, refl, inl, inr, true, false, ◌||◌, some, List, [], ◌∷◌, arith, all, Bool-cases,
  and-true, Option-cases, string_eq,
}
use suite_harness.Tools.{ToolEffect, read, write, external, destructive, effect_beq, has_effect}
use suite_harness.Registry.{RegisteredTool}
use suite_harness.Runner.{RunRequest, World}
use suite_harness.Runner.Authorize.{
  registered, safe_registration, resumable_tool, is_builtin, same_effects,
}

same_effect : (x e : ToolEffect) → effect_beq x e ≡ true → x ≡ e
same_effect read read h = refl
same_effect write write h = refl
same_effect destructive destructive h = refl
same_effect external external h = refl
same_effect _ _ h = absurd (ground (arith, h))

in_both :
    (x : ToolEffect) (a b : List ToolEffect)
    → all (λ e. has_effect e b) a ≡ true
    → has_effect x a ≡ true
    → has_effect x b ≡ true
in_both x [] b h m = ground arith
in_both x (e ∷ a) b h m = elim (Bool-cases (effect_beq x e)) [
  | inl s ↦ rw (same_effect x e s) (ground (arith, h))
  | inr s ↦ in_both x a b (ground (arith, h)) (ground (arith, m, s))
]

resumable_effects :
    (name family : String) (effects : List ToolEffect)
    → resumable_tool name ≡ some (family, effects)
    → has_effect write effects || has_effect destructive effects ≡ false
unfolding resumable_tool
resumable_effects name family effects h = ground (arith, h)

same_effects_reads :
    (es expected : List ToolEffect)
    → same_effects es expected ≡ true
    → has_effect write expected || has_effect destructive expected ≡ false
    → has_effect write es || has_effect destructive es ≡ false
same_effects_reads es expected s h =
    ground (arith, s, h, in_both write es expected, in_both destructive es expected)

is_builtin_effects :
    {H : Type 0} (name family : String) (effects : List ToolEffect) (tool : RegisteredTool H)
    → is_builtin name (family, effects) tool ≡ true
    → same_effects tool.spec.effects effects ≡ true
unfolding is_builtin
is_builtin_effects name family effects tool h = (and-true _ _ h).1

module _ {H X : Type 0} (request : RunRequest) (name : String) (w : World H X)
    (tool : RegisteredTool H) (r : registered request name w ≡ some tool)
    (h : safe_registration request name w ≡ true) where
  pub safe_registration_effects :
      has_effect write tool.spec.effects || has_effect destructive tool.spec.effects ≡ false
  unfolding safe_registration
  safe_registration_effects = elim (Option-cases (resumable_tool name)) [
    | inl e ↦ absurd (ground (arith, e, h))
    | inr ((family, effects), e) ↦
        let b : is_builtin name (family, effects) tool ≡ true = ground (arith, e, h, r) in
        same_effects_reads tool.spec.effects effects (is_builtin_effects name family effects tool b)
          (resumable_effects name family effects e)
  ]
