-- ===== src/Sessions/Transcript/Pages.antt =====
-- A client that reads a transcript page by page, from its end.
use suite_harness.Base.{
  ℕ, zero, suc, ◌+◌, ◌-◌, ◌<◌, ◌≤◌, min, ◌≡◌, sym, ap, subst, ◌∙◌, some, List, [], ◌∷◌, ◌++◌, arith,
  length, take, drop, length-take, length-drop, take-append-drop_self, take-take_le, take_all,
}
use suite_harness.Sessions.Model.{TranscriptEvent}
use suite_harness.Sessions.Transcript.Reading.{page_of}
use suite_harness.Sessions.Transcript.Invariant.{Numbered}

-- A client that asks for the page before the first event that it has, until a page is empty.
unfoldable pub walk_back : ℕ → ℕ → ℕ → List TranscriptEvent → List TranscriptEvent
unfolding page_of
walk_back zero limit before es = []
walk_back (suc fuel) limit before es =
    let page = page_of limit (some before) es in
    elim page [ [] ↦ [] | e ∷ rest ↦ walk_back fuel limit e.sequence es ++ (e ∷ rest) ]

Numbered-drop : (k n : ℕ) (es : List TranscriptEvent) → Numbered n es → Numbered (n + k) (drop k es)
Numbered-drop zero n es h = let e : n + 0 ≡ n = omega arith in rw e h
Numbered-drop (suc k) n [] h = tt
Numbered-drop (suc k) n (x ∷ es) h =
    let e : n + suc k ≡ suc n + k = omega arith in rw e (Numbered-drop k (suc n) es h.1)

Numbered-take : (k n : ℕ) (es : List TranscriptEvent) → Numbered n es → Numbered n (take k es)
Numbered-take zero n es h = tt
Numbered-take (suc k) n [] h = tt
Numbered-take (suc k) n (x ∷ es) h = (h.0, Numbered-take k (suc n) es h.1)

-- The page ends where it was asked to, and starts at most `limit` events before.
page_of-slice :
    (limit before : ℕ) (es : List TranscriptEvent)
    → before ≤ length es
    → page_of limit (some (suc before)) es ≡ drop (before - limit) (take before es)
unfolding page_of
page_of-slice limit before es h =
    let e : min (length es) (suc before - 1) ≡ before = omega arith in rw e

take-split :
    (limit n : ℕ) (es : List TranscriptEvent)
    → take (n - limit) es ++ drop (n - limit) (take n es) ≡ take n es
take-split limit n es =
    rw (← take-take_le (n - limit) n es (omega arith))
      (take-append-drop_self (n - limit) (take n es))

walk_page :
    (fuel limit n : ℕ) (es page : List TranscriptEvent)
    → ((m : ℕ) → m < n → walk_back fuel limit (suc m) es ≡ take m es)
    → page ≡ drop (n - limit) (take n es)
    → n ≤ length es
    → 1 ≤ limit
    → Numbered 1 es
    → (elim page [ [] ↦ [] | e ∷ rest ↦ walk_back fuel limit e.sequence es ++ (e ∷ rest) ])
      ≡ take n es
walk_page fuel limit n es [] ih p h l num =
    let z : n ≡ 0 =
      omega (arith, ap length p, length-drop (n - limit) (take n es), length-take n es) in
    rw z
walk_page fuel limit n es (e ∷ rest) ih p h l num =
    let k : ℕ = n - limit in
    let less : k < n =
      omega (arith, ap length p, length-drop (n - limit) (take n es), length-take n es) in
    let first : e.sequence ≡ suc k = omega (
      arith,
      (subst (Numbered (1 + k)) (sym p)
          (Numbered-drop k 1 (take n es) (Numbered-take n 1 es num))).0,
    ) in
    ap (λ (b : ℕ). walk_back fuel limit b es ++ (e ∷ rest)) first
    ∙ rw (ih k less, p) (take-split limit n es)

walk_back-take :
    (fuel limit n : ℕ) (es : List TranscriptEvent)
    → n < fuel
    → n ≤ length es
    → 1 ≤ limit
    → Numbered 1 es
    → walk_back fuel limit (suc n) es ≡ take n es
unfolding walk_back
walk_back-take zero limit n es f h l num = absurd (omega arith)
walk_back-take (suc fuel) limit n es f h l num =
    walk_page fuel limit n es (page_of limit (some (suc n)) es)
      (λ m less. walk_back-take fuel limit m es (omega arith) (omega arith) l num)
      (page_of-slice limit n es h) h l num

-- Of a transcript that is numbered from 1, a client that walks back page by page, with any page
-- size of at least 1, from just after the last event, reads every event exactly once and in order,
-- and needs at most one request more than there are events.
pub walk_back_complete :
    (limit : ℕ) (es : List TranscriptEvent)
    → 1 ≤ limit
    → Numbered 1 es
    → walk_back (length es + 1) limit (length es + 1) es ≡ es
walk_back_complete limit es l num =
    let e : length es + 1 ≡ suc (length es) = omega arith in
    rw e (
      walk_back-take (suc (length es)) limit (length es) es (omega arith) (omega arith) l num
      ∙ take_all (length es) es (omega arith))
