-- ===== src/Policy/Authorize/Tests.antt =====
-- An approval that is used twice, and one that is issued; the theorems at these inputs.
use tesserix_mcp_runtime.Base.Sets.{sorted}
use tesserix_mcp_runtime.Base.{
  ◌++◌, ◌&&◌, ◌||◌, if◌then◌else◌, arith, eq_iff, String, ◌≢◌, Bool, str_eq, true, false, ◌≡◌, refl,
  List, [], ◌∷◌, contains, is_subset,
}
use tesserix_mcp_runtime.Base.Dict.{get, lookup}
use tesserix_mcp_runtime.Base.Text.{is_stripped}
use tesserix_mcp_runtime.Contracts.Failure.{ok}
use tesserix_mcp_runtime.Contracts.Response.{require_text, is_text}
use tesserix_mcp_runtime.Json.{object, end}
use tesserix_mcp_runtime.Policy.Rules.{
  ApprovalRecord, ApprovalUse, approval_action_fingerprint, tool_policy_fingerprint,
}
use tesserix_mcp_runtime.Policy.Setup.{manifest_of}
use tesserix_mcp_runtime.Policy.Audit.{
  Surroundings, Consumed, accepted, refused, event_fields, append, record_decision,
}
use tesserix_mcp_runtime.Policy.Authorize.{
  intersection, action, binds, spend, judge, authorize_approval, approve, decide, authorize,
}
use tesserix_mcp_runtime.Policy.Authorize.Replay.{
  Request, IsSpent, OneTime, ask, ask_all, replay_denied,
}
use tesserix_mcp_runtime.Policy.Authorize.Issued.{Matches, for_action-binds}
use tesserix_mcp_runtime.Policy.Rules.{for_action, check_approval, is_digest, check_timestamp}
use tesserix_mcp_runtime.Execution.Limits.{ticks}
use tesserix_mcp_runtime.Base.{finite, pos, ◌↔◌}
use tesserix_mcp_runtime.Policy.Samples.{
  refund_manifest, policy, approval, surroundings, caller, called, journal,
}

-- a store that takes every use once
abbrev is_spent : List ((String × String) × Consumed) → String → String → Bool
is_spent [] id act = false
is_spent ((use_, accepted) ∷ log) id act =
    (str_eq use_.0 id && str_eq use_.1 act) || is_spent log id act
is_spent ((use_, _) ∷ log) id act = is_spent log id act

abbrev with_store : Surroundings
with_store = record surroundings {
  consume = λ log id act. if is_spent log id act then refused else accepted;
}

spent-is_spent :
    (id act : String) (before after : List ((String × String) × Consumed))
    → is_spent (before ++ ((id, act), accepted) ∷ after) id act ≡ true
spent-is_spent id act [] after = ground (arith, eq_iff id id, eq_iff act act)
spent-is_spent id act ((use_, answer) ∷ before) after =
    ground (arith, spent-is_spent id act before after)

refuses_twice :
    (log : List ((String × String) × Consumed)) (id act : String)
    → IsSpent (id, act) log
    → with_store.consume log id act ≢ accepted
refuses_twice log id act (before, after, e) h =
    ground (arith, e, spent-is_spent id act before after)

abbrev request : Request
request = record { context = caller; arguments = object end; tool = called }

one_time : OneTime with_store policy request
unfolding manifest_of get lookup
one_time = record {
  manifest = refund_manifest;
  known = refl;
  needed = refl;
  approval_id = "a-1";
  given = refl;
  approval = approval;
  fetched = refl;
  once = refl;
  fingerprint = "f";
  reviewed = refl;
}

allowed_first : (ask with_store policy request journal).1 ≡ ok tt
unfolding authorize manifest_of decide get lookup is_subset contains intersection approve
    authorize_approval judge binds action approval_action_fingerprint spend record_decision
    event_fields append sorted
allowed_first = refl

replay_denied_example :
    (ask with_store policy request
      (ask_all with_store policy (request ∷ []) (ask with_store policy request journal).0)).1
    ≢ ok tt
replay_denied_example =
    replay_denied with_store policy refuses_twice request one_time (request ∷ []) journal
      allowed_first

abbrev zeros : String
zeros = "0000000000000000000000000000000000000000000000000000000000000000"

abbrev digesting : Surroundings
digesting = record surroundings { fingerprint = λ v. zeros }

abbrev issued : ApprovalRecord
issued = record approval {
  action_fingerprint = zeros;
  tool_fingerprint = zeros;
  arguments_fingerprint = zeros;
  expires_at = 0;
}

issued_ok :
    for_action digesting.fingerprint "a-1" "acme" "cat" refund_manifest
      (object end)
      (finite (pos 0))
      ApprovalUse.one_time
    ≡ ok issued
unfolding for_action check_approval require_text is_text is_stripped is_digest
    tool_policy_fingerprint approval_action_fingerprint check_timestamp ticks
issued_ok = refl

for_action-binds_example :
    (binds digesting caller (object end) refund_manifest zeros "a-1" issued ≡ true)
    ↔ Matches digesting "a-1" "acme" "cat" refund_manifest
        (object end)
        (finite (pos 0))
        ApprovalUse.one_time
        caller
        (object end)
        refund_manifest
        zeros
        "a-1"
for_action-binds_example =
    for_action-binds digesting "a-1" "acme" "cat" refund_manifest (object end) (finite (pos 0))
      ApprovalUse.one_time issued issued_ok caller (object end) refund_manifest zeros "a-1"
