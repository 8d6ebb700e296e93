-- ===== src/Effects.antt =====
-- src/suiteharness/runtime/effects.py, `EffectScope`: the stack of cleanup callbacks, and `close`,
-- which one task runs while others call the scope. What a disposer does is outside: each run of one
-- ends as a call says. A disposer is callable by its type.
pub mod Unwinding
mod Tests
use Prim.Native.Char.{code}
use suite_harness.Base.{
  ℕ, String, Bool, true, false, ◌&&◌, ◌||◌, not, Option, none, some, List, [], ◌∷◌, ◌++◌, leb,
  nat_beq, if◌then◌else◌, ◌==◌, string_eq, Result, ok, err, ◌>>=◌, ◌>>◌, require,
}

pub data EffectScopeState : Type 0 where
  is_open closing closed : EffectScopeState

-- `ValueError` for an empty name or label, and `EffectScopeClosedError`.
pub data EffectError : Type 0 where
  empty_name empty_label scope_closed : EffectError

pub record EffectFailure (E : Type 0) : Type 0 where
  pub label : String
  pub error : E

-- `_OwnedEffect`
pub record OwnedEffect (D : Type 0) : Type 0 where
  pub label : String
  pub dispose : D

pub record EffectScope (D E : Type 0) : Type 0 where
  pub name : String
  pub state : EffectScopeState
  pub effects : List (OwnedEffect D)
  pub cleanup_error : Option (List (EffectFailure E))

-- The code points for which `str.isspace` holds.
unfoldable pub is_space : ℕ → Bool
is_space c =
    leb 9 c && leb c 13
    || leb 28 c && leb c 32
    || nat_beq c 133
    || nat_beq c 160
    || nat_beq c 5760
    || leb 8192 c && leb c 8202
    || nat_beq c 8232
    || nat_beq c 8233
    || nat_beq c 8239
    || nat_beq c 8287
    || nat_beq c 12288

unfoldable pub lstrip : String → String
lstrip String.[] = String.[]
lstrip (String.◌∷◌ c s) = let rest = lstrip s in if is_space (code c) then rest else String.◌∷◌ c s

unfoldable pub rstrip : String → String
rstrip String.[] = String.[]
rstrip (String.◌∷◌ c s) =
    let rest = rstrip s in if rest == "" && is_space (code c) then "" else String.◌∷◌ c rest

-- `text.strip()`
abbrev pub strip : String → String
strip s = rstrip (lstrip s)

abbrev pub state_is_open : EffectScopeState → Bool
state_is_open is_open = true
state_is_open closing = false
state_is_open closed = false

unfoldable pub reversed : {A : Type 0} → List A → List A
reversed [] = []
reversed (x ∷ xs) = reversed xs ++ x ∷ []

module _ {D E : Type 0} where
  -- `EffectScope(name)`
  unfoldable pub create : String → Result EffectError (EffectScope D E)
  create name = do
    let clean_name = strip name
    require (not (clean_name == "")) empty_name
    ok (record { name = clean_name; state = is_open; effects = []; cleanup_error = none })

  unfoldable pub callback : String → D → EffectScope D E → Result EffectError (EffectScope D E)
  callback label dispose s = do
    let clean_label = strip label
    require (not (clean_label == "")) empty_label
    require (state_is_open s.state) scope_closed
    ok (record s { effects = s.effects ++ record { label = clean_label; dispose = dispose } ∷ [] })

abbrev pub error_of : {E : Type 0} → List (EffectFailure E) → Option (List (EffectFailure E))
error_of [] = none
error_of (f ∷ fs) = some (f ∷ fs)

-- The scope, the local variables of the task that owns `close`, and the disposers that have run, with
-- the exception that each raised.
pub record System (D E : Type 0) : Type 0 where
  pub scope : EffectScope D E
  pub pending : List (OwnedEffect D)
  pub failures : List (EffectFailure E)
  pub log : List (OwnedEffect D × Option E)

-- What a task does next: `register` is a call of `callback`, also that at the end of `enter`;
-- `begin_close` is the part of `close` under the lock; `dispose_next` is one turn of its loop, with
-- what the disposer raises; `finish_close` is its `finally` block after the last turn.
pub data Call (D E : Type 0) : Type 0 where
  register : String → D → Call D E
  begin_close : Call D E
  dispose_next : Option E → Call D E
  finish_close : Call D E

-- What `close` gives to a caller that finds the scope closed, or has waited for that.
unfoldable pub close_result :
    {D E : Type 0} → EffectScope D E → Result (List (EffectFailure E)) (Unit {0})
close_result s = elim s.cleanup_error [ none ↦ ok tt | some failures ↦ err failures ]

module _ {D E : Type 0} where
  unfoldable pub after_register : Result EffectError (EffectScope D E) → System D E → System D E
  after_register (ok scope) s = record s { scope = scope }
  after_register (err e) s = s

  -- The task that finds the scope open owns the close; the others wait or return.
  unfoldable pub own_close : EffectScopeState → System D E → System D E
  own_close is_open s = record s {
    scope = record s.scope { state = closing; effects = [] };
    pending = reversed s.scope.effects;
  }
  own_close closing s = s
  own_close closed s = s

  abbrev pub failed_with : OwnedEffect D → Option E → List (EffectFailure E)
  failed_with e none = []
  failed_with e (some error) = record { label = e.label; error = error } ∷ []

  unfoldable pub dispose : List (OwnedEffect D) → Option E → System D E → System D E
  dispose [] outcome s = s
  dispose (e ∷ pending) outcome s = record s {
    pending = pending;
    failures = s.failures ++ failed_with e outcome;
    log = s.log ++ (e, outcome) ∷ [];
  }

  unfoldable pub finished : EffectScopeState → List (OwnedEffect D) → System D E → System D E
  finished closing [] s = record s {
    scope = record s.scope { state = closed; cleanup_error = error_of s.failures };
  }
  finished closing (e ∷ pending) s = s
  finished is_open pending s = s
  finished closed pending s = s

  unfoldable pub step : Call D E → System D E → System D E
  step (register label dispose) s = after_register (callback label dispose s.scope) s
  step begin_close s = own_close s.scope.state s
  step (dispose_next outcome) s = dispose s.pending outcome s
  step finish_close s = finished s.scope.state s.pending s

  unfoldable pub run : List (Call D E) → System D E → System D E
  run [] s = s
  run (c ∷ cs) s = run cs (step c s)

  -- A scope on which nothing was called yet.
  abbrev pub fresh : EffectScope D E → System D E
  fresh scope = record { scope = scope; pending = []; failures = []; log = [] }
