-- ===== src/Tools/Effects.antt =====
-- What the validated effects of a tool mean.
use suite_harness.Base.{◌≡◌, true, not, ◌||◌, List, [], ◌∷◌, arith, ok}
use suite_harness.Tools.{
  ToolEffect, read, write, destructive, has_effect, ToolSpec, validate_effects, is_read,
}

read_or_write :
    (es : List ToolEffect)
    → validate_effects es ≡ ok tt
    → (has_effect read es ≡ not (has_effect write es))
      × (not (has_effect destructive es) || has_effect write es ≡ true)
unfolding validate_effects
read_or_write [] h = ground arith
read_or_write (e ∷ es) h = ground arith

-- Of a tool whose effects were accepted exactly one of read and write is declared, so that it is a
-- read tool exactly when it does not write, and only a tool that writes is destructive.
pub effects_exclusive :
    (spec : ToolSpec)
    → validate_effects spec.effects ≡ ok tt
    → (is_read spec ≡ not (has_effect write spec.effects))
      × (has_effect read spec.effects ≡ not (has_effect write spec.effects))
      × (not (has_effect destructive spec.effects) || has_effect write spec.effects ≡ true)
unfolding is_read
effects_exclusive spec h = let r = read_or_write spec.effects h in (ground (arith, r.0), r.0, r.1)
