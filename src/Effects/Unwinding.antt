-- ===== src/Effects/Unwinding.antt =====
-- How a scope is unwound, whatever its tasks call and in whatever order.
use suite_harness.Base.{
  subst, Ends, String, ◌≡◌, refl, ap, sym, ◌∙◌, inl, inr, false, Option, List, [], ◌∷◌, ◌++◌, map,
  arith, ◌==◌, string_eq, Bool-cases, Result, ok, err,
}
use suite_harness.Effects.{
  EffectScopeState, is_open, closing, closed, EffectError, EffectFailure, OwnedEffect, EffectScope,
  strip, reversed, callback, System, Call, register, begin_close, dispose_next, finish_close,
  after_register, own_close, failed_with, dispose, error_of, finished, step, run, fresh, create,
  close_result, close_result,
}

append_assoc : {A : Type 0} (xs ys zs : List A) → (xs ++ ys) ++ zs ≡ xs ++ (ys ++ zs)
append_assoc [] ys zs = refl
append_assoc (x ∷ xs) ys zs = ap (λ l. x ∷ l) (append_assoc xs ys zs)

append_nil : {A : Type 0} (xs : List A) → xs ++ [] ≡ xs
append_nil [] = refl
append_nil (x ∷ xs) = ap (λ l. x ∷ l) (append_nil xs)

reversed-append : {A : Type 0} (xs : List A) (x : A) → reversed (xs ++ x ∷ []) ≡ x ∷ reversed xs
unfolding reversed
reversed-append [] x = refl
reversed-append (y ∷ xs) x = ap (λ l. l ++ y ∷ []) (reversed-append xs x)

map-append : {A B : Type 0} (f : A → B) (xs ys : List A) → map f (xs ++ ys) ≡ map f xs ++ map f ys
map-append f [] ys = refl
map-append f (x ∷ xs) ys = ap (λ l. f x ∷ l) (map-append f xs ys)

module _ {D E : Type 0} where
  -- The effects that a call makes the scope own.
  abbrev pub gained : Result EffectError (EffectScope D E) → String → D → List (OwnedEffect D)
  gained (ok s) label dispose = record { label = strip label; dispose = dispose } ∷ []
  gained (err e) label dispose = []

  abbrev pub gains : Call D E → System D E → List (OwnedEffect D)
  gains (register label dispose) s = gained (callback label dispose s.scope) label dispose
  gains begin_close s = []
  gains (dispose_next outcome) s = []
  gains finish_close s = []

  -- The effects that the calls make the scope own, in their order.
  abbrev pub owned : List (Call D E) → System D E → List (OwnedEffect D)
  owned [] s = []
  owned (c ∷ cs) s = gains c s ++ owned cs (step c s)

  abbrev pub disposed : System D E → List (OwnedEffect D)
  disposed s = map (λ (e : OwnedEffect D × Option E). e.0) s.log

  abbrev pub failures_in : List (OwnedEffect D × Option E) → List (EffectFailure E)
  failures_in [] = []
  failures_in ((e, outcome) ∷ log) = failed_with e outcome ++ failures_in log

  -- Where a scope stands that owns `effects`.
  abbrev pub IsAt : List (OwnedEffect D) → EffectScopeState → System D E → Type 0
  IsAt effects is_open s =
      (s.scope.effects ≡ effects) × (s.log ≡ []) × (s.pending ≡ []) × (s.failures ≡ [])
  IsAt effects closing s =
      (s.scope.effects ≡ [])
      × (disposed s ++ s.pending ≡ reversed effects)
      × (s.failures ≡ failures_in s.log)
  IsAt effects closed s =
      (s.scope.effects ≡ [])
      × (disposed s ≡ reversed effects)
      × (s.pending ≡ [])
      × (s.scope.cleanup_error ≡ error_of (failures_in s.log))

  keep_state :
      (effects : List (OwnedEffect D)) (state : EffectScopeState) (s : System D E)
      → s.scope.state ≡ state
      → IsAt effects state s
      → IsAt effects s.scope.state s
  keep_state effects state s e h = subst (λ st. IsAt effects st s) (sym e) h

  failures_in-append :
      (log : List (OwnedEffect D × Option E)) (e : OwnedEffect D) (outcome : Option E)
      → failures_in (log ++ (e, outcome) ∷ []) ≡ failures_in log ++ failed_with e outcome
  failures_in-append [] e outcome = append_nil (failed_with e outcome)
  failures_in-append ((f, o) ∷ log) e outcome =
      ap (λ l. failed_with f o ++ l) (failures_in-append log e outcome)
      ∙ sym (append_assoc (failed_with f o) (failures_in log) (failed_with e outcome))

  own_close-IsAt :
      (effects : List (OwnedEffect D)) (state : EffectScopeState) (s : System D E)
      → s.scope.state ≡ state
      → IsAt effects state s
      → IsAt effects (own_close state s).scope.state (own_close state s)
  unfolding own_close
  own_close-IsAt effects is_open s e h = (refl, rw (h.1, h.0) refl, rw (h.1, h.3) refl)
  own_close-IsAt effects closing s e h = keep_state effects closing s e h
  own_close-IsAt effects closed s e h = keep_state effects closed s e h

  dispose-IsAt :
      (effects : List (OwnedEffect D)) (state : EffectScopeState) (pending : List (OwnedEffect D))
      (outcome : Option E) (s : System D E)
      → s.scope.state ≡ state
      → s.pending ≡ pending
      → IsAt effects state s
      → IsAt effects (dispose pending outcome s).scope.state (dispose pending outcome s)
  unfolding dispose
  dispose-IsAt effects state [] outcome s e p h = keep_state effects state s e h
  dispose-IsAt effects is_open (x ∷ pending) outcome s e p h = absurd (ground (arith, sym p ∙ h.2))
  dispose-IsAt effects closed (x ∷ pending) outcome s e p h = absurd (ground (arith, sym p ∙ h.2))
  dispose-IsAt effects closing (x ∷ pending) outcome s e p h = keep_state effects closing _ e (
    h.0,
    ap (λ l. l ++ pending)
          (map-append (λ (e : OwnedEffect D × Option E). e.0) s.log ((x, outcome) ∷ []))
        ∙ append_assoc (disposed s) (x ∷ []) pending
        ∙ ap (λ l. disposed s ++ l) (sym p)
        ∙ h.1,
    ap (λ l. l ++ failed_with x outcome) h.2 ∙ sym (failures_in-append s.log x outcome),
  )

  finished-IsAt :
      (effects : List (OwnedEffect D)) (state : EffectScopeState) (pending : List (OwnedEffect D))
      (s : System D E)
      → s.scope.state ≡ state
      → s.pending ≡ pending
      → IsAt effects state s
      → IsAt effects (finished state pending s).scope.state (finished state pending s)
  unfolding finished
  finished-IsAt effects is_open pending s e p h = keep_state effects is_open s e h
  finished-IsAt effects closed pending s e p h = keep_state effects closed s e h
  finished-IsAt effects closing (x ∷ pending) s e p h = keep_state effects closing s e h
  finished-IsAt effects closing [] s e p h = (
    h.0,
    sym (append_nil (disposed s)) ∙ ap (λ l. disposed s ++ l) (sym p) ∙ h.1,
    p,
    ap error_of h.2,
  )

  added-IsAt :
      (effects : List (OwnedEffect D)) (label : String) (d : D) (state : EffectScopeState)
      (s : System D E)
      → s.scope.state ≡ state
      → (strip label == "") ≡ false
      → IsAt effects state s
      → IsAt
          (effects ++ gained (callback label d s.scope) label d)
          (after_register (callback label d s.scope) s).scope.state
          (after_register (callback label d s.scope) s)
  unfolding callback after_register
  added-IsAt effects label d is_open s e n h =
      rw (n, e) (ap (λ l. l ++ record { label = strip label; dispose = d } ∷ []) h.0, h.1, h.2, h.3)
  added-IsAt effects label d closing s e n h = rw (n, e, append_nil effects) h
  added-IsAt effects label d closed s e n h = rw (n, e, append_nil effects) h

  after_register-IsAt :
      (effects : List (OwnedEffect D)) (label : String) (d : D) (s : System D E)
      → IsAt effects s.scope.state s
      → IsAt
          (effects ++ gained (callback label d s.scope) label d)
          (after_register (callback label d s.scope) s).scope.state
          (after_register (callback label d s.scope) s)
  unfolding callback after_register
  after_register-IsAt effects label d s h = elim (Bool-cases (strip label == "")) [
    | inl e ↦ rw (e, append_nil effects) h
    | inr e ↦ added-IsAt effects label d s.scope.state s refl e h
  ]

  pub step-IsAt :
      (effects : List (OwnedEffect D)) (c : Call D E) (s : System D E)
      → IsAt effects s.scope.state s
      → IsAt (effects ++ gains c s) (step c s).scope.state (step c s)
  unfolding step
  step-IsAt effects (register label d) s h = after_register-IsAt effects label d s h
  step-IsAt effects begin_close s h =
      rw (append_nil effects) (own_close-IsAt effects s.scope.state s refl h)
  step-IsAt effects (dispose_next outcome) s h =
      rw (append_nil effects) (dispose-IsAt effects s.scope.state s.pending outcome s refl refl h)
  step-IsAt effects finish_close s h =
      rw (append_nil effects) (finished-IsAt effects s.scope.state s.pending s refl refl h)

  run-IsAt :
      (cs : List (Call D E)) (effects : List (OwnedEffect D)) (s : System D E)
      → IsAt effects s.scope.state s
      → IsAt (effects ++ owned cs s) (run cs s).scope.state (run cs s)
  unfolding run
  run-IsAt [] effects s h = rw (append_nil effects) h
  run-IsAt (c ∷ cs) effects s h =
      rw (sym (append_assoc effects (gains c s) (owned cs (step c s))))
        (run-IsAt cs (effects ++ gains c s) (step c s) (step-IsAt effects c s h))

fresh-IsAt :
    (D E : Type 0) (name : String)
    → Ends
        (λ e. Unit {0})
        (λ (scope : EffectScope D E). IsAt [] (fresh scope).scope.state (fresh scope))
        (create name)
unfolding create
fresh-IsAt D E name = elim (Bool-cases (strip name == "")) [
  | inl e ↦ rw e tt
  | inr e ↦ rw e (refl, refl, refl, refl)
]

-- What `close` gives when these disposers failed.
abbrev pub result_with :
    {E : Type 0} → List (EffectFailure E) → Result (List (EffectFailure E)) (Unit {0})
result_with [] = ok tt
result_with (f ∷ fs) = err (f ∷ fs)

module _ {D E : Type 0} where
  closed_step :
      (c : Call D E) (s : System D E) → s.scope.state ≡ closed → s.pending ≡ [] → step c s ≡ s
  unfolding step own_close dispose finished callback after_register
  closed_step (register label d) s e p = elim (Bool-cases (strip label == "")) [
    | inl n ↦ rw n refl
    | inr n ↦ rw (n, e) refl
  ]
  closed_step begin_close s e p = rw e refl
  closed_step (dispose_next outcome) s e p = rw p refl
  closed_step finish_close s e p = rw e refl

  closed_run :
      (cs : List (Call D E)) (s : System D E)
      → s.scope.state ≡ closed
      → s.pending ≡ []
      → run cs s ≡ s
  unfolding run
  closed_run [] s e p = refl
  closed_run (c ∷ cs) s e p = ap (run cs) (closed_step c s e p) ∙ closed_run cs s e p

  close_result_of :
      (scope : EffectScope D E) (fs : List (EffectFailure E))
      → scope.cleanup_error ≡ error_of fs
      → close_result scope ≡ result_with fs
  unfolding close_result
  close_result_of scope [] e = rw e refl
  close_result_of scope (f ∷ fs) e = rw e refl

  -- When a scope is closed, whatever was called and in whatever order, each effect that it came to
  -- own was disposed of once, the last first, and nothing else was; `close` gives the failures of the
  -- disposers to every caller, in their order, and no later call changes anything.
  pub closed_unwinds :
      (name : String) (scope : EffectScope D E) (cs more : List (Call D E))
      → create name ≡ ok scope
      → (run cs (fresh scope)).scope.state ≡ closed
      → (disposed (run cs (fresh scope)) ≡ reversed (owned cs (fresh scope)))
        × (close_result (run cs (fresh scope)).scope
            ≡ result_with (failures_in (run cs (fresh scope)).log))
        × (run more (run cs (fresh scope)) ≡ run cs (fresh scope))
  closed_unwinds name scope cs more n e =
      let start : IsAt [] (fresh scope).scope.state (fresh scope) = rw n at (fresh-IsAt D E name) in
      let s : System D E = run cs (fresh scope) in
      let h : IsAt (owned cs (fresh scope)) closed s =
        subst (λ st. IsAt (owned cs (fresh scope)) st s) e (run-IsAt cs [] (fresh scope) start) in
      (h.1, close_result_of s.scope (failures_in s.log) h.3, closed_run more s e h.2)
