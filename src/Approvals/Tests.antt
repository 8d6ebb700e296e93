-- ===== src/Approvals/Tests.antt =====
-- The approval store at concrete inputs. The digest is instantiated by the identity.
use suite_harness.Base.{
  ◌+◌, ◌≤◌, String, ◌≡◌, refl, ap, ◌↔◌, none, some, List, [], ◌∷◌, arith, string_eq,
}
use suite_harness.Base.Dict.{get, remove}
use suite_harness.Scopes.{product_path, path_beq}
use suite_harness.Approvals.{ApprovalTarget, ApprovalBinding, Store, consume_if_matches}
use suite_harness.Approvals.Consume.{
  Authorizes, consume_iff_authorized, consume_spends, presented, refused_not_burnt,
}
use suite_harness.Approvals.Traces.{
  Op, consumes, run, step, used-le-issued, used_total, issued_total, pending_count,
}

abbrev digest : String → String
digest t = t

abbrev wanted : ApprovalTarget
wanted = record {
  scope = product_path "acme" "crm";
  principal_id = "alice";
  run_id = "run-1";
  call_id = "call-1";
  tool_identity = record {
    namespace = "product";
    name = "crm.update";
    origin = "o";
    version = "1";
  };
  arguments_digest = "00";
}

abbrev other_call : ApprovalTarget
other_call = record wanted { call_id = "call-2" }

abbrev binding : ApprovalBinding
binding = record { target = wanted; approved_by = "alice"; issued_at = 5; expires_at = 50 }

abbrev pending : Store
pending = ("token", binding) ∷ []

consume_iff_authorized_example :
    ((consume_if_matches digest 10 "token" wanted pending).1 ≡ some binding)
    ↔ Authorizes 10 "token" wanted pending binding
consume_iff_authorized_example = consume_iff_authorized digest 10 "token" wanted pending binding

consume_spends_example :
    let s' = (consume_if_matches digest 10 "token" wanted pending).0 in
    (s' ≡ remove "token" pending) × ((consume_if_matches digest 20 "token" other_call s').1 ≡ none)
unfolding consume_if_matches path_beq get
consume_spends_example = consume_spends digest 10 20 "token" wanted other_call pending binding refl

token_pending : get "token" pending ≡ some binding
unfolding get
token_pending = refl

refused_not_burnt_example :
    (consume_if_matches digest 12 "token" wanted
      (presented digest ((10, ("token", other_call)) ∷ (11, ("new", wanted)) ∷ []) pending)).1
    ≡ some binding
refused_not_burnt_example =
    refused_not_burnt digest ((10, ("token", other_call)) ∷ (11, ("new", wanted)) ∷ []) 12 "token"
      pending binding token_pending
      (
        omega arith,
        λ same e.
            ground (
              arith,
              string_eq.same_iff "call-1" "call-2",
              ap (λ (t : ApprovalTarget). t.call_id) e,
            ),
        (omega arith, λ same e. ground (arith, string_eq.same_iff "new" "token", same), tt),
      )
      (omega arith)

abbrev replay : List Op
replay =
    consumes 10 "token" other_call ∷ consumes 11 "token" wanted ∷ consumes 12 "token" wanted ∷ []

used_once : used_total digest "token" (run digest pending replay).1 ≡ 1
unfolding run step path_beq get remove
used_once = refl

used-le-issued_example :
    used_total digest "token" (run digest pending replay).1
      + pending_count digest "token" (run digest pending replay).0
    ≤ issued_total digest "token" (run digest pending replay).1
      + pending_count digest "token" pending
used-le-issued_example = used-le-issued digest "token" replay pending
