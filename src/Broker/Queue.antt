-- ===== src/Broker/Queue.antt =====
-- internal/broker/queue.go: the queue manager.
use suctl.Prelude.{ℕ, String, List, [], ◌∷◌, ◌++◌, if◌then◌else◌}
use suctl.Gate.{admissible}
use suctl.Messages
use suctl.Messages.{Store}
use suctl.Messages.Jobs.{Job, queued, running}

-- The first loop of planPromotions: the busy set of the running jobs.
unfoldable pub fold_busy : (String → List String) → List String → List Job → List String
fold_busy fp busy [] = busy
fold_busy fp busy (r ∷ rs) = fold_busy fp (fp r.module_name ++ busy) rs

-- The second loop: the tokens that are promoted.
unfoldable pub promote : (String → List String) → List String → List Job → List String
promote fp busy [] = []
promote fp busy (q ∷ qs) =
    let f = fp q.module_name in
    let fits = admissible f busy in
    let rest = promote fp (if fits then f ++ busy else busy) qs in
    if fits then q.token ∷ rest else rest

-- planPromotions
unfoldable pub plan_promotions : List Job → List Job → (String → List String) → List String
plan_promotions waiting busy_jobs fp = promote fp (fold_busy fp [] busy_jobs) waiting

-- The loop of advance over the plan.
unfoldable pub start_all : List String → ℕ → Store → Store
start_all [] now s = s
start_all (t ∷ ts) now s = start_all ts now (Messages.start t now s)

-- advance, with the footprints of the modules store at that moment.
unfoldable pub advance : (String → List String) → ℕ → Store → Store
advance fp now s = start_all (plan_promotions (queued s) (running s) fp) now s
