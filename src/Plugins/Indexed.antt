-- ===== src/Plugins/Indexed.antt =====
-- The candidates, sorted and indexed by their ids.
use suite_harness.Base.{
  suc, ◌+◌, String, ◌≡◌, refl, ap, sym, ◌∙◌, inl, inr, Bool, false, ◌||◌, some, List, [], ◌∷◌, map,
  length, arith, contains, ◌==◌, string_eq, Bool-cases, same_cases, same_self, Result, ok, err,
  Ends,
}
use suite_harness.Base.Dict
use suite_harness.Base.Dict.{
  Dict, HasDistinctKeys, get-put, get-remove, length-put, put-HasDistinctKeys, length-remove-lt,
}
use mathlib.Core.Option.{some-injective}
use suite_harness.Plugins.{VerifiedPluginSource, PluginErrorCode}
use suite_harness.Plugins.Planner.{Sources, index_sources, source_le, insert_source, sort_sources}

abbrev pub ids : List VerifiedPluginSource → List String
ids = map (λ s. s.manifest.plugin_id)

-- `by_id` has the sources `ss` in addition to those of `start`.
pub record IsIndexed (start : Sources) (ss : List VerifiedPluginSource) (by_id : Sources)
    : Type 0 where
  pub keys : HasDistinctKeys by_id
  pub named :
      (x : String) (s : VerifiedPluginSource) → Dict.get x by_id ≡ some s → s.manifest.plugin_id ≡ x
  pub members : (x : String) → Dict.has x by_id ≡ (Dict.has x start || contains x (ids ss))
  pub size : length by_id ≡ length start + length ss

IsIndexed-more :
    (s : VerifiedPluginSource) (ss : List VerifiedPluginSource) (start : Sources)
    → Dict.has s.manifest.plugin_id start ≡ false
    → (r : Result PluginErrorCode Sources)
    → Ends (λ e. Unit {0}) (IsIndexed (Dict.put s.manifest.plugin_id s start) ss) r
    → Ends (λ e. Unit {0}) (IsIndexed start (s ∷ ss)) r
IsIndexed-more s ss start new (err e) h = tt
IsIndexed-more s ss start new (ok d) h = record {
  keys = h.keys;
  named = h.named;
  members = λ x. ground (
    arith,
    h.members x,
    get-put s.manifest.plugin_id x s start,
    string_eq.same_iff s.manifest.plugin_id x,
  );
  size = ground (arith, h.size, length-put s.manifest.plugin_id s start, new);
}

-- Every source is stored under its own id.
abbrev pub IsNamed : Sources → Type 0
IsNamed d =
    (x : String) (s : VerifiedPluginSource) → Dict.get x d ≡ some s → s.manifest.plugin_id ≡ x

put-IsNamed :
    (s : VerifiedPluginSource) (start : Sources)
    → IsNamed start
    → IsNamed (Dict.put s.manifest.plugin_id s start)
put-IsNamed s start named x t h = elim (same_cases s.manifest.plugin_id x) [
  | inl same ↦
      let found : Dict.get x (Dict.put s.manifest.plugin_id s start) ≡ some s =
        get-put s.manifest.plugin_id x s start ∙ rw (same, same_self x) refl in
      ap (λ (u : VerifiedPluginSource). u.manifest.plugin_id) (some-injective t s (sym h ∙ found))
      ∙ same
  | inr ne ↦ named x t (sym (Dict.get-put_ne s.manifest.plugin_id x s start ne) ∙ h)
]

pub index_sources-IsIndexed :
    (ss : List VerifiedPluginSource) (start : Sources)
    → HasDistinctKeys start
    → IsNamed start
    → Ends (λ e. Unit {0}) (IsIndexed start ss) (index_sources ss start)
unfolding index_sources
index_sources-IsIndexed [] start k named = record {
  keys = k;
  named = named;
  members = λ x. ground arith;
  size = omega arith;
}
index_sources-IsIndexed (s ∷ ss) start k named =
    let id = s.manifest.plugin_id in
    elim (Bool-cases (Dict.has id start)) [
      | inl e ↦ rw e tt
      | inr e ↦ rw e (
          IsIndexed-more s ss start e (index_sources ss (Dict.put id s start)) (
            index_sources-IsIndexed ss (Dict.put id s start) (put-HasDistinctKeys id s start k)
              (put-IsNamed s start named)))
    ]

module _ (version_le : VerifiedPluginSource → VerifiedPluginSource → Bool)
    (accepts : String → String → Bool) where
  contains-insert_source :
      (x : String) (a : VerifiedPluginSource) (bs : List VerifiedPluginSource)
      → contains x (ids (insert_source accepts version_le a bs))
        ≡ ((a.manifest.plugin_id == x) || contains x (ids bs))
  unfolding insert_source
  contains-insert_source x a [] = ground arith
  contains-insert_source x a (b ∷ bs) = elim (Bool-cases (source_le accepts version_le a b)) [
    | inl e ↦ rw e refl
    | inr e ↦ rw e (ground (arith, contains-insert_source x a bs))
  ]

  pub contains-sort_sources :
      (x : String) (ss : List VerifiedPluginSource)
      → contains x (ids (sort_sources accepts version_le ss)) ≡ contains x (ids ss)
  unfolding sort_sources
  contains-sort_sources x [] = refl
  contains-sort_sources x (s ∷ ss) =
      contains-insert_source x s (sort_sources accepts version_le ss)
      ∙ ap (λ b. s.manifest.plugin_id == x || b) (contains-sort_sources x ss)

  length-insert_source :
      (a : VerifiedPluginSource) (bs : List VerifiedPluginSource)
      → length (insert_source accepts version_le a bs) ≡ suc (length bs)
  unfolding insert_source
  length-insert_source a [] = refl
  length-insert_source a (b ∷ bs) = elim (Bool-cases (source_le accepts version_le a b)) [
    | inl e ↦ rw e refl
    | inr e ↦ rw e (ap suc (length-insert_source a bs))
  ]

  pub length-sort_sources :
      (ss : List VerifiedPluginSource) → length (sort_sources accepts version_le ss) ≡ length ss
  unfolding sort_sources
  length-sort_sources [] = refl
  length-sort_sources (s ∷ ss) =
      length-insert_source s (sort_sources accepts version_le ss) ∙ ap suc (length-sort_sources ss)
