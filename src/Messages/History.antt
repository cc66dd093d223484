-- ===== src/Messages/History.antt =====
-- internal/messages/store.go: the stores that a history of operations can reach.
use suctl.Prelude.{ℕ, String}
use suctl.Protocol.{Request, Response}
use suctl.Messages.{Store, empty, start, open_exchange, complete}
use suctl.Messages.Invariant.{Inv, empty-Inv, start-Inv, open_exchange-Inv, complete-Inv}

pub data Reach : Store → Type 0 where
  fresh : Reach empty
  opens :
      (req : Request) (m c w : String) (now : ℕ) {s : Store}
      → Reach s
      → Reach (open_exchange req m c w now s)
  completes :
      (id : String) (resp : Response) (now : ℕ) {s : Store}
      → Reach s
      → Reach (complete id resp now s).0
  starts : (token : String) (now : ℕ) {s : Store} → Reach s → Reach (start token now s)

-- In every store that opening, completing and promoting can reach, trimming included, the order
-- lists every recorded exchange once, and nothing else.
pub Reach-Inv : (s : Store) → Reach s → Inv s
Reach-Inv s fresh = empty-Inv
Reach-Inv s (opens req m c w now h) = open_exchange-Inv req m c w now _ (Reach-Inv _ h)
Reach-Inv s (completes id resp now h) = complete-Inv id resp now _ (Reach-Inv _ h)
Reach-Inv s (starts token now h) = start-Inv token now _ (Reach-Inv _ h)
