-- ===== src/Ffi/History.antt =====
-- What a run adds to the log.
use librados_rs.Base.{List, ◌∷◌}
use librados_rs.Ffi.Call.{Call}

-- The log grew by calls of one kind alone.
pub data Grew (Is : Call → Type 0) (log : List Call) : List Call → Type 0 where
  same : Grew Is log log
  more : {l : List Call} {c : Call} → Is c → Grew Is log l → Grew Is log (c ∷ l)

pub Grew-before :
    {Is : Call → Type 0} {log : List Call} {c : Call} {l : List Call}
    → Is c
    → Grew Is (c ∷ log) l
    → Grew Is log l
Grew-before i same = more i same
Grew-before i (more j g) = more j (Grew-before i g)
