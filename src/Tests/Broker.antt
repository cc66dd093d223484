-- ===== src/Tests/Broker.antt =====
-- The theorems on the broker, with a job on nginx and two that wait.
use suctl.Prelude.{
  arith, ◌+◌, ◌≡◌, refl, true, false, List, [], ◌∷◌, some, none, ◌⊎◌, ◌↔◌, lookup, insert, is_some,
}
use suctl.Protocol.{Request, decode_invoke, decode_update}
use suctl.Messages
use suctl.Modules.Route.{Route}
use suctl.Broker.Core.{replied, Outside}
use suctl.Broker.Invoke.{
  Poll, poll, refused, admitted, check_invoke, begin_invoke, finish_invoke, abandon_invoke,
}
use suctl.Broker.Updates.{is_nil, handle_job_update}
use suctl.Broker.Gates.{MayInvoke, check_invoke_iff}
use suctl.Broker.Exchange.{Closes, finish_invoke-Closes}
use suctl.Broker.Reports.{Recorded, job_update-Recorded}
use suctl.Broker.World.{step, Pending, answered, World, Event, arrive, wake, reply, run}
use suctl.Broker.Replies.{wake_deadline, total, arrivals, total-run}
use suctl.Tests.Data.{
  invoke_of, report_of, ok_of, acceptance, queue_of_three, first_runs, noon, core_of,
}

abbrev to_nginx : Route
to_nginx = record { module_name = "nginx"; mux = some 1; handler = none; async = true }

-- certbot calls nginx, as its manifest declares.
check_invoke_iff_example :
    (check_invoke (core_of first_runs) (invoke_of "r6" "t1" "nginx.site.add") "certbot" noon
      ≡ admitted to_nginx "nginx.site.add")
    ↔ MayInvoke
        (core_of first_runs)
        (invoke_of "r6" "t1" "nginx.site.add")
        "certbot"
        to_nginx
        "nginx.site.add"
check_invoke_iff_example =
    check_invoke_iff (core_of first_runs) (invoke_of "r6" "t1" "nginx.site.add") "certbot" noon
      to_nginx "nginx.site.add"

-- nginx accepts what it is sent.
abbrev outside : Outside
outside = record {
  handle = λ h req caller. ok_of req.id none;
  round_trip = λ wire req. replied (ok_of req.id (some acceptance));
}

abbrev first_request : Request
first_request = invoke_of "r1" "t1" "nginx.site.add"

abbrev first_record : Messages.Record
first_record = Messages.opened first_request "nginx" "nginx.site.add" "" 10

recorded_first : lookup "r1" first_runs.records ≡ some first_record
unfolding lookup Messages.start Messages.open_exchange Messages.trim_at Messages.open_record insert
recorded_first = refl

finish_invoke-Closes_example :
    Closes
      (core_of first_runs)
      first_request
      50
      first_record
      (finish_invoke (core_of first_runs) outside first_request "" noon to_nginx)
    × Closes
        (core_of first_runs)
        first_request
        50
        first_record
        (abandon_invoke (core_of first_runs) first_request noon)
finish_invoke-Closes_example =
    finish_invoke-Closes (core_of first_runs) outside first_request "" noon to_nginx first_record
      recorded_first

first_accepted :
    (finish_invoke (core_of first_runs) outside first_request "" noon to_nginx).1.status ≡ "ok"
unfolding finish_invoke suctl.Broker.Invoke.close_invoke suctl.Broker.Invoke.stamp_response
    suctl.Broker.Invoke.accept_async suctl.Broker.Invoke.route_response decode_invoke
first_accepted = refl

report_typed : (decode_update (report_of "r8" "t1" "done").params).1 ≡ true
unfolding decode_update
report_typed = refl

report_known : is_nil (Messages.by_token "t1" first_runs) ≡ false
unfolding Messages.with_token Messages.start lookup Messages.open_exchange Messages.trim_at
    Messages.open_record insert
report_known = refl

job_update-Recorded_example :
    Recorded
      (core_of first_runs)
      (report_of "r8" "t1" "done")
      "nginx"
      noon
      (handle_job_update (core_of first_runs) (report_of "r8" "t1" "done") "nginx" noon)
job_update-Recorded_example =
    job_update-Recorded (core_of first_runs) (report_of "r8" "t1" "done") "nginx" noon refl
      report_typed report_known

abbrev idle_world : World
idle_world = record { core = core_of queue_of_three; parked = []; routing = []; replies = [] }

-- An invoke arrives, is promoted, and is answered.
abbrev one_invoke : List Event
one_invoke =
    arrive (invoke_of "r9" "t9" "os.svc.list") "" noon ∷ wake noon ∷ reply outside noon ∷ []

total-run_example :
    total "r9" (run one_invoke idle_world) ≡ arrivals "r9" one_invoke + total "r9" idle_world
total-run_example = total-run "r9" one_invoke idle_world

abbrev third_invoke : Pending
third_invoke = record {
  request = invoke_of "r3" "t3" "os.svc.list";
  caller = "";
  route = record { module_name = "os"; mux = some 3; handler = none; async = false };
  deadline = 50;
}

-- The third invoke waits, and its deadline has come.
abbrev waiting_world : World
waiting_world = record idle_world { parked = third_invoke ∷ [] }

wake_deadline_example :
    let out = step (wake noon) waiting_world in
    let (after, resp) = abandon_invoke (core_of queue_of_three) third_invoke.request noon in
    let promoted = is_some (Messages.started_at "t3" queue_of_three) in
    (out.parked ≡ [])
    × ((promoted ≡ true) × (out.routing ≡ third_invoke ∷ []) × (out.core ≡ core_of queue_of_three)
        ⊎ (promoted ≡ false)
          × (out.replies ≡ answered resp ∷ [])
          × (resp.status ≡ "error")
          × (out.core ≡ after))
wake_deadline_example = wake_deadline noon third_invoke [] waiting_world refl (omega arith)
