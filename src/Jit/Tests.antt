-- ===== src/Jit/Tests.antt =====
-- One request for internal/rbac/jit.go.
use platformfoundry_ce.Base.{
  ◌≡◌, ◌<◌, refl, true, false, List, [], ◌∷◌, ◌++◌, some, arith, contains, ◌==◌, ◌&&◌, ◌||◌,
}
use platformfoundry_ce.Base.Int64.{i64}
use platformfoundry_ce.Base.Maps.{lookup, insert, has, keys, RangeOrder}
use platformfoundry_ce.Jit.Manager.{
  Request, Grant, Timer, Policy, Manager, new_manager, pending, approved, done, failed, not_pending,
  request_access, approve_access, extend_access, approve_request, new_grant, grant_temporary_access,
  schedule_revocation, is_pending, find_matching_policy, first_match, incomplete, refusal,
  with_policy, seen_after, share, write_request, store_request, new_request, add_time, end_grant,
  extensions_used_up, policy_matches,
}
use platformfoundry_ce.Jit.Sound.{IsSound}
use platformfoundry_ce.Jit.Steps.{
  Step, requests, approves, Reached, AllFresh, made, then_step, Reached-IsSound,
}
use platformfoundry_ce.Jit.Gaps.{waiting_on, extended_grant_ends, policy_matches_lem}

abbrev as_listed : RangeOrder
as_listed n ks = ks

program : Unit {0}
unfolding lookup insert has keys new_manager request_access approve_access approve_request new_grant
    grant_temporary_access schedule_revocation is_pending find_matching_policy first_match refusal
    incomplete with_policy seen_after share write_request store_request new_request add_time
    extensions_used_up
program = tt

abbrev asked : Request
asked = record {
  object = "0x1";
  id = "";
  requester = "ada";
  resource = "db";
  role = "operator";
  justification = "incident";
  duration = i64 100;
  status = pending;
  approved_by = "";
  denied_by = "";
  updated_at = 0;
  expires_at = 0;
  policy_id = "";
}

abbrev waiting : Request
waiting = record asked { id = "jit-1"; updated_at = 1000 }

abbrev one_request : Manager
one_request = record {
  requests = ("jit-1", waiting) ∷ [];
  active_grants = [];
  policies = [];
  timers = [];
}

abbrev grant : Grant
grant = record {
  id = "grant-1";
  request_id = "jit-1";
  user = "ada";
  resource = "db";
  role = "operator";
  expires_at = 2100;
  approved_by = "bob";
  is_active = true;
  extend_count = 0;
}

abbrev timer : Timer
timer = record { grant_id = "grant-1"; fires_at = 2100 }

abbrev one_grant : Manager
one_grant = record {
  requests =
      (
        "jit-1",
        record waiting {
          status = approved;
          approved_by = "bob";
          updated_at = 2000;
          expires_at = 2100;
        },
      )
      ∷ [];
  active_grants = ("grant-1", grant) ∷ [];
  policies = [];
  timers = timer ∷ [];
}

requested : (request_access as_listed 1000 "jit-1" "grant-0" true asked new_manager).1 ≡ one_request
unfolding program
requested = refl

was_approved : (approve_access 2000 "grant-1" "jit-1" "bob" one_request).1 ≡ one_grant
unfolding program
was_approved = refl

-- A struct that is submitted again: the entry of its first submission shows the second ID, and
-- what approves the first entry approves the second.
abbrev resubmitted : Manager
resubmitted = (request_access as_listed 1001 "jit-2" "grant-0" true waiting one_request).1

resubmitted-shared :
    lookup "jit-1" resubmitted.requests ≡ some (record asked { id = "jit-2"; updated_at = 1001 })
unfolding program
resubmitted-shared = refl

resubmitted-approved :
    (approve_access 2000 "grant-2" "jit-2" "eve"
      (approve_access 2000 "grant-1" "jit-1" "bob" resubmitted).1).0
    ≡ failed not_pending
unfolding program
resubmitted-approved = refl

abbrev one_step : Manager
one_step = (request_access as_listed 1000 "jit-1" "grant-0" true asked new_manager).1

abbrev first_call : Step new_manager one_step
first_call = requests as_listed 1000 "jit-1" "grant-0" true asked

abbrev two_steps : Manager
two_steps = (approve_access 2000 "grant-1" "jit-1" "bob" one_step).1

abbrev second_call : Step one_step two_steps
second_call = approves 2000 "grant-1" "jit-1" "bob"

abbrev two_calls : Reached two_steps
two_calls = then_step (then_step made first_call) second_call

two_calls-AllFresh : AllFresh two_calls
unfolding program
two_calls-AllFresh = ((tt, (refl, λ k q there. absurd (ground arith))), tt)

two_steps-one_grant : two_steps ≡ one_grant
unfolding program
two_steps-one_grant = refl

Reached-IsSound_example : IsSound two_steps
Reached-IsSound_example = Reached-IsSound two_calls two_calls-AllFresh

in_one_grant : lookup "grant-1" one_grant.active_grants ≡ some grant
unfolding program
in_one_grant = refl

may_extend : extensions_used_up one_grant grant ≡ false
unfolding program
may_extend = refl

extended_grant_ends_example :
    ((extend_access 2050 "grant-1" (i64 500) one_grant).0 ≡ done)
    × ((g' : Grant) × (lookup "grant-1"
            (extend_access 2050 "grant-1" (i64 500) one_grant).1.active_grants
          ≡ some g')
        × (g'.is_active ≡ true)
        × (2100 < g'.expires_at))
    × ((back' : List Timer) × ((extend_access 2050 "grant-1" (i64 500) one_grant).1.timers
          ≡ [] ++ timer ∷ back')
        × (has "grant-1"
              (end_grant "grant-1" (
                waiting_on
                  ([] ++ back')
                  (extend_access 2050 "grant-1" (i64 500) one_grant).1)).active_grants
            ≡ false))
extended_grant_ends_example =
    extended_grant_ends one_grant 2050 "grant-1" grant (i64 500) [] [] timer in_one_grant refl
      may_extend (omega arith) refl refl (omega arith)

-- `ProductionJITPolicy`.
abbrev production : Policy
production = record {
  id = "p";
  resource_pattern = "*production*";
  allowed_roles = "viewer" ∷ "operator" ∷ [];
  max_duration = i64 14400000000000;
  max_extensions = i64 1;
  require_justification = true;
  require_approval = true;
  auto_approve_for = [];
  enabled = true;
}

policy_matches-production :
    policy_matches production "production-db" "operator"
    ≡ true
      && ((contains ("viewer" ∷ "operator" ∷ []) "operator"
            || contains ("viewer" ∷ "operator" ∷ []) "*")
          && ("*production*" == "*" || "*production*" == "production-db"))
policy_matches-production = policy_matches_lem production "production-db" "operator"
