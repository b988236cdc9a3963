-- ===== src/Tests/Changing.antt =====
-- A cluster whose pools change while they are listed.
use librados_rs.Ffi.Memory.{whole}
use librados_rs.Base.{
  ◌≡◌, ℕ, zero, suc, ◌+◌, ◌<◌, ◌≤◌, ◌^◌, true, false, pos, List, [], ◌∷◌, length, leb, replicate,
  if◌then◌else◌, arith,
}
use librados_rs.Error.{Bytes, ok}
use librados_rs.Ffi.Call.{Call, Reply}
use librados_rs.Ffi.History.{Grew}
use librados_rs.Ffi.World.{Platform}
use librados_rs.Text.Laws.{NoNul, pack}
use librados_rs.Text.Utf8.{All, IsUtf8}
use librados_rs.Text.Utf8
use librados_rs.Conn.{list_pools}
use librados_rs.Conn.Pools.{ListsPools, IsPoolName}
use librados_rs.Conn.Latest.{Moment, Lists, list_pools_latest}
use librados_rs.Tests.Cluster.{rbd, answer, rados, bare}
use librados_rs.Tests.Reading.{rbd-IsPoolName}

abbrev long : ℕ → Bytes
long n = replicate n 97

long-NoNul : (n : ℕ) → NoNul (long n)
long-NoNul zero = tt
long-NoNul (suc n) = (ground arith, long-NoNul n)

long-IsUtf8 : (n : ℕ) → IsUtf8 (long n)
long-IsUtf8 zero = Utf8.nil
long-IsUtf8 (suc n) = Utf8.one (ground arith) (long-IsUtf8 n)

-- At first one with a long name, and then another one.
abbrev pools : List Call → List Bytes
pools [] = long 1100 ∷ []
pools (_ ∷ _) = rbd ∷ []

pools-IsPoolName : (log : List Call) → All IsPoolName (pools log)
pools-IsPoolName [] = ((cc, long-NoNul 1100, long-IsUtf8 1100), tt)
pools-IsPoolName (_ ∷ _) = (rbd-IsPoolName, tt)

pools_bound : (log : List Call) → length (pack (pools log)) ≤ 1101
unfolding pack
pools_bound [] = ground arith
pools_bound (_ ∷ _) = ground arith

pools_short : (log : List Call) → length (pack (pools log)) + 1 < 2 ^ 31
pools_short log = omega (arith, pools_bound log)

unfoldable pools_reply : (log : List Call) → (c : Call) → Reply c
unfolding pack
pools_reply log (Call.pool_list _ buf) =
    let all = pack (pools log) in
    (pos (length all + 1), if leb (length all) buf.len then all else [])
pools_reply log c = answer false log c

abbrev changing : Platform
changing = record { librados = pools_reply; overflow_checks = true }

lists : (log : List Call) → ListsPools changing 1 (pools log) (Moment log)
unfolding pools_reply
lists log = record {
  needed = λ l len now. rw now;
  fits = λ l len now h. rw now (ground arith);
  bounded = λ l len now. ground arith;
}

list_pools_latest_example :
    let (o, w') = list_pools changing 78 rados bare in
    (log : List Call) × (len : ℕ) × (o ≡ ok (pools log))
    × (w' ≡ record bare { log = Call.pool_list 1 (whole len) ∷ log })
    × Grew (Lists 1) [] log
list_pools_latest_example =
    list_pools_latest changing rados pools lists pools_short 77 1101 bare pools-IsPoolName
      pools_bound (ground arith)
