-- ===== src/Tests/Queue.antt =====
-- The theorems on the queue manager, with nginx and certbot in one footprint and os in another.
use suctl.Prelude.{
  some, String, ◌≡◌, refl, true, List, [], ◌∷◌, none, ◌⊎◌, In, contains, arith, map, lookup, insert,
  pos,
}
use suctl.Messages
use suctl.Messages.Jobs.{job, Job}
use suctl.Modules.{State}
use suctl.Modules.Route.{Route}
use suctl.Modules.Footprint.{footprint}
use suctl.Broker.Queue.{plan_promotions, advance}
use suctl.Broker.Overtaking.{plan_blocked}
use suctl.Broker.Exclusive.{IsExclusive}
use suctl.Broker.Core.{Core}
use suctl.Broker.Invoke.{begin_invoke}
use suctl.Broker.Handled.{Reach-IsExclusive, starts, goes, begins, Reach-Fine}
use suctl.Messages.Calm.{Fresh}
use suctl.Messages.{empty}
use suctl.Messages.Jobs.{running}
use suctl.Protocol.{Request}
use suctl.Client.{context_request}
use suctl.Client.Hops.{Joins, context_request-Joins}
use suctl.Protocol.Values.{Json, Fields}
use suctl.Tests.Data.{differs, installed, core_of, invoke_of, noon}

abbrev reach : String → List String
reach = footprint (installed State.active)

abbrev nginx_invoke : Request
nginx_invoke = invoke_of "r1" "t1" "nginx.site.add"

abbrev certbot_invoke : Request
certbot_invoke = invoke_of "r2" "t2" "certbot.cert.provision"

-- nginx runs.
abbrev one_begun : Core
one_begun = (begin_invoke (core_of empty) nginx_invoke "" noon).0

-- certbot waits behind it.
abbrev two_begun : Core
two_begun = (begin_invoke one_begun certbot_invoke "" noon).0

first_fresh : Fresh nginx_invoke empty
first_fresh = record { unknown = unfold lookup in refl; room = omega arith }

one_begun_stored :
    (one_begun.messages.order ≡ "r1" ∷ []) × (lookup "r2" one_begun.messages.records ≡ none)
unfolding begin_invoke suctl.Broker.Invoke.check_invoke suctl.Broker.Invoke.param_text
    suctl.Broker.Invoke.check_name suctl.Modules.Route.resolve suctl.Modules.Route.resolve_handler
    lookup suctl.Modules.Route.resolve_wire suctl.Modules.Route.declared
    suctl.Broker.Invoke.check_route suctl.Broker.Invoke.open_invoke suctl.Broker.Invoke.advance_core
    advance suctl.Broker.Queue.start_all plan_promotions suctl.Broker.Queue.promote
    suctl.Messages.Jobs.queued suctl.Prelude.sort Messages.open_exchange
    suctl.Broker.Queue.fold_busy suctl.Gate.admissible suctl.Messages.Jobs.distinct_tokens
    suctl.Messages.Jobs.fold_records suctl.Messages.Jobs.fold_update suctl.Messages.Jobs.job
    suctl.Messages.Jobs.job_of suctl.Messages.Jobs.job_tokens suctl.Messages.Jobs.originating
    running suctl.Messages.Jobs.select_jobs suctl.Messages.Jobs.settle Messages.gather Messages.list
    Messages.open_record Messages.start Messages.trim_at Messages.with_token
    suctl.Modules.Footprint.collect_footprint footprint suctl.Modules.Footprint.visit_providers
    suctl.Modules.Requirements.find_provider suctl.Modules.Route.allows
    suctl.Modules.Route.cap_async suctl.Modules.Route.find_capability insert
    suctl.Prelude.sort_insert suctl.Protocol.Values.get suctl.Protocol.decode_invoke
    suctl.Protocol.decode_update
one_begun_stored = (refl, refl)

second_fresh : Fresh certbot_invoke one_begun.messages
second_fresh = record { unknown = one_begun_stored.1; room = rw one_begun_stored.0 (omega arith) }

Reach-IsExclusive_example : IsExclusive reach two_begun.messages
unfolding begin_invoke suctl.Broker.Invoke.check_invoke suctl.Broker.Invoke.param_text
    suctl.Broker.Invoke.check_name suctl.Modules.Route.resolve suctl.Modules.Route.resolve_handler
    lookup suctl.Modules.Route.resolve_wire suctl.Modules.Route.declared
    suctl.Broker.Invoke.check_route suctl.Broker.Invoke.open_invoke suctl.Broker.Invoke.advance_core
Reach-IsExclusive_example = Reach-IsExclusive two_begun (
    goes (goes (starts (core_of empty) refl) (begins nginx_invoke "" noon refl first_fresh))
      (begins certbot_invoke "" noon refl second_fresh))

-- The first job runs and the second is queued.
two_begun_running : map (λ j. j.token) (running two_begun.messages) ≡ "t1" ∷ []
unfolding begin_invoke suctl.Broker.Invoke.check_invoke suctl.Broker.Invoke.param_text
    suctl.Broker.Invoke.check_name suctl.Modules.Route.resolve suctl.Modules.Route.resolve_handler
    lookup suctl.Modules.Route.resolve_wire suctl.Modules.Route.declared
    suctl.Broker.Invoke.check_route suctl.Broker.Invoke.open_invoke suctl.Broker.Invoke.advance_core
    advance suctl.Broker.Queue.start_all plan_promotions suctl.Broker.Queue.promote
    suctl.Messages.Jobs.queued suctl.Prelude.sort Messages.open_exchange
    suctl.Broker.Queue.fold_busy suctl.Gate.admissible suctl.Messages.Jobs.distinct_tokens
    suctl.Messages.Jobs.fold_records suctl.Messages.Jobs.fold_update suctl.Messages.Jobs.job
    suctl.Messages.Jobs.job_of suctl.Messages.Jobs.job_tokens suctl.Messages.Jobs.originating
    running suctl.Messages.Jobs.select_jobs suctl.Messages.Jobs.settle Messages.gather Messages.list
    Messages.open_record Messages.start Messages.trim_at Messages.with_token
    suctl.Modules.Footprint.collect_footprint footprint suctl.Modules.Footprint.visit_providers
    suctl.Modules.Requirements.find_provider suctl.Modules.Route.allows
    suctl.Modules.Route.cap_async suctl.Modules.Route.find_capability insert
    suctl.Prelude.sort_insert suctl.Protocol.Values.get suctl.Protocol.decode_invoke
    suctl.Protocol.decode_update
two_begun_running = refl

abbrev job_on : String → String → String → Job
job_on token module_name state = record {
  token = token;
  module_name = module_name;
  capability = "";
  state = state;
  queued_at = 10;
  started_at = 0;
  finished_at = 0;
  output = none;
  error = none;
  message = "";
  messages = [];
  progress = pos 0;
}

-- certbot calls nginx while it serves a job of nginx.
abbrev hop : Request
hop = context_request "r2" "" "t1" "m1" "nginx.site.add" (Json.obj Fields.end)

abbrev no_one : Job
no_one = job_on "" "" ""

abbrev first_job : Job
first_job = elim (job "t1" one_begun.messages) [ none ↦ no_one | some j ↦ j ]

first_job_known : job "t1" one_begun.messages ≡ some first_job
unfolding begin_invoke suctl.Broker.Invoke.check_invoke suctl.Broker.Invoke.param_text
    suctl.Broker.Invoke.check_name suctl.Modules.Route.resolve suctl.Modules.Route.resolve_handler
    lookup suctl.Modules.Route.resolve_wire suctl.Modules.Route.declared
    suctl.Broker.Invoke.check_route suctl.Broker.Invoke.open_invoke suctl.Broker.Invoke.advance_core
    advance suctl.Broker.Queue.start_all plan_promotions suctl.Broker.Queue.promote
    suctl.Messages.Jobs.queued suctl.Prelude.sort Messages.open_exchange
    suctl.Broker.Queue.fold_busy suctl.Gate.admissible suctl.Messages.Jobs.distinct_tokens
    suctl.Messages.Jobs.fold_records suctl.Messages.Jobs.fold_update suctl.Messages.Jobs.job
    suctl.Messages.Jobs.job_of suctl.Messages.Jobs.job_tokens suctl.Messages.Jobs.originating
    running suctl.Messages.Jobs.select_jobs suctl.Messages.Jobs.settle Messages.gather Messages.list
    Messages.open_record Messages.start Messages.trim_at Messages.with_token
    suctl.Modules.Footprint.collect_footprint footprint suctl.Modules.Footprint.visit_providers
    suctl.Modules.Requirements.find_provider suctl.Modules.Route.allows
    suctl.Modules.Route.cap_async suctl.Modules.Route.find_capability insert
    suctl.Prelude.sort_insert suctl.Protocol.Values.get suctl.Protocol.decode_invoke
    suctl.Protocol.decode_update
first_job_known = refl

hop_fresh : Fresh hop one_begun.messages
unfolding suctl.Client.invoke_request
hop_fresh = record { unknown = one_begun_stored.1; room = rw one_begun_stored.0 (omega arith) }

context_request-Joins_example :
    Joins "t1" first_job one_begun.messages (begin_invoke one_begun hop "certbot" noon).0.messages
context_request-Joins_example =
    context_request-Joins one_begun noon "certbot" "r2" "" "t1" "m1" "nginx.site.add"
      (Json.obj Fields.end) first_job
      (Reach-Fine one_begun
        (goes (starts (core_of empty) refl) (begins nginx_invoke "" noon refl first_fresh))).sound
      (differs "certbot" "" refl) (differs "t1" "" refl) first_job_known hop_fresh

abbrev on_nginx : Job
on_nginx = job_on "t1" "nginx" "running"

abbrev on_certbot : Job
on_certbot = job_on "t2" "certbot" "queued"

abbrev on_os : Job
on_os = job_on "t3" "os" "queued"

-- certbot waits for nginx; os passes it.
plan_run : plan_promotions (on_certbot ∷ on_os ∷ []) (on_nginx ∷ []) reach ≡ "t3" ∷ []
unfolding plan_promotions suctl.Broker.Queue.promote suctl.Gate.admissible footprint
    suctl.Modules.Footprint.collect_footprint suctl.Modules.Footprint.visit_providers lookup
    suctl.Modules.Requirements.find_provider suctl.Modules.Route.declared
    suctl.Broker.Queue.fold_busy
plan_run = refl

plan_blocked_example :
    In "t2" (plan_promotions (on_os ∷ on_certbot ∷ []) (on_nginx ∷ []) reach)
    ⊎ ((b : Job) × (m : String) × (In b (on_nginx ∷ [])
          ⊎ In b (on_os ∷ []) × In b.token (plan_promotions (on_os ∷ []) (on_nginx ∷ []) reach))
        × (contains (reach "certbot") m ≡ true)
        × (contains (reach b.module_name) m ≡ true))
plan_blocked_example = plan_blocked reach (on_os ∷ []) on_certbot [] (on_nginx ∷ [])
