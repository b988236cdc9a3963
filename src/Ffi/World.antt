-- ===== src/Ffi/World.antt =====
-- A run of the library: the calls made so far, and the boxed values that are alive.
use librados_rs.Base.{◌+◌, Bool, ℤ, List, [], ◌∷◌, Option, none, some, ◌==◌, if◌then◌else◌}
use librados_rs.Error.{RadosError, Outcome, ok, err, panic, fault, out_of_fuel, check_err}
use librados_rs.Ffi.Memory.{Ptr}
use librados_rs.Ffi.Call.{Call, Reply, Cell, Writes}

-- librados, as its reply to each call after any history (the last call first), and whether the
-- crate is compiled with overflow checks.
pub record Platform : Type 0 where
  pub librados : List Call → (c : Call) → Reply c
  pub overflow_checks : Bool

-- `next` is an address that has not been handed out; a cell is `none` where nothing is alive.
pub record World : Type 0 where
  pub log : List Call
  pub next : Ptr
  pub mem : Ptr → Option Cell

abbrev pub Io : Type 0 → Type 0
Io A = World → Outcome A × World

abbrev pub pure : {A : Type 0} → A → Io A
pure a w = (ok a, w)

abbrev pub lift : {A : Type 0} → Outcome A → Io A
lift o w = (o, w)

-- The rest of a run, after a first part that ended in `r`.
abbrev pub and_then : {A B : Type 0} → Outcome A → World → (A → Io B) → Outcome B × World
and_then (ok a) w k = k a w
and_then (err e) w k = (err e, w)
and_then panic w k = (panic, w)
and_then fault w k = (fault, w)
and_then out_of_fuel w k = (out_of_fuel, w)

infixl 5 ◌>>=◌ ◌>>◌
abbrev pub ◌>>=◌ : {A B : Type 0} → Io A → (A → Io B) → Io B
◌>>=◌ m k w = and_then (m w).0 (m w).1 k

abbrev pub ◌>>◌ : {A B : Type 0} → Io A → Io B → Io B
m >> k = m >>= λ _. k

-- A call that is only logged: its return value is ignored or void.
abbrev pub logged : Call → World → World
logged c w = record w { log = c ∷ w.log }

abbrev pub tell : Call → Io (Unit {0})
tell c w = (ok tt, logged c w)

-- A destructor at the end of a scope: it runs however the scope ends, unwinding included, and
-- nothing is said after undefined behaviour.
abbrev pub dropping : {A : Type 0} → Outcome A × World → (World → World) → Outcome A × World
dropping (ok a, w) d = (ok a, d w)
dropping (err e, w) d = (err e, d w)
dropping (panic, w) d = (panic, d w)
dropping (fault, w) d = (fault, w)
dropping (out_of_fuel, w) d = (out_of_fuel, w)

abbrev pub finally : {A : Type 0} → Io A → (World → World) → Io A
finally m d w = dropping (m w) d

-- A statement that follows `m` whether its result is a value or an error, but not a panic.
abbrev pub settled : {A : Type 0} → Outcome A × World → (World → World) → Outcome A × World
settled (ok a, w) d = (ok a, d w)
settled (err e, w) d = (err e, d w)
settled (panic, w) d = (panic, w)
settled (fault, w) d = (fault, w)
settled (out_of_fuel, w) d = (out_of_fuel, w)

abbrev pub followed_by : {A : Type 0} → Io A → (World → World) → Io A
followed_by m d w = settled (m w) d

-- A statement on the error branch of `m`.
abbrev pub failed : {A : Type 0} → Outcome A × World → (World → World) → Outcome A × World
failed (ok a, w) d = (ok a, w)
failed (err e, w) d = (err e, d w)
failed (panic, w) d = (panic, w)
failed (fault, w) d = (fault, w)
failed (out_of_fuel, w) d = (out_of_fuel, w)

abbrev pub on_error : {A : Type 0} → Io A → (World → World) → Io A
on_error m d w = failed (m w) d

-- Where a value is moved out of a scope that ends well, its destructor runs on the other exits.
abbrev pub unwound : {A : Type 0} → Outcome A × World → (World → World) → Outcome A × World
unwound (ok a, w) d = (ok a, w)
unwound (err e, w) d = (err e, d w)
unwound (panic, w) d = (panic, d w)
unwound (fault, w) d = (fault, w)
unwound (out_of_fuel, w) d = (out_of_fuel, w)

abbrev pub unless_ok : {A : Type 0} → Io A → (World → World) → Io A
unless_ok m d w = unwound (m w) d

-- A `match` on a result.
abbrev pub on_result : {A B : Type 0} → Outcome A → (A → Io B) → (RadosError → Io B) → Io B
on_result (ok a) f g = f a
on_result (err e) f g = g e
on_result panic f g = lift panic
on_result fault f g = lift fault
on_result out_of_fuel f g = lift out_of_fuel

abbrev pub poke : (Ptr → Option Cell) → Ptr → Option Cell → Ptr → Option Cell
poke m a c b = if b == a then c else m b

-- `Box::new` and `Arc::new`.
abbrev pub alloc : Cell → Io Ptr
alloc c w = (ok w.next, record w { next = w.next + 1; mem = poke w.mem w.next (some c) })

abbrev pub release : Ptr → World → World
release a w = record w { mem = poke w.mem a none }

abbrev pub release_all : List Ptr → World → World
release_all [] w = w
release_all (a ∷ as') w = release_all as' (release a w)

-- A read through a box; undefined behaviour once the box is gone.
abbrev pub load : Ptr → Io Cell
load a w = (elim (w.mem a) [ none ↦ fault | some c ↦ ok c ], w)

-- What a foreign function writes through the pointers it holds; undefined behaviour where a
-- box is gone.
abbrev pub store : Ptr → Cell → Io (Unit {0})
store a c w = elim (w.mem a) [
  | none ↦ (fault, w)
  | some _ ↦ (ok tt, record w { mem = poke w.mem a (some c) })
]

abbrev pub store_all : Writes → Io (Unit {0})
store_all [] w = (ok tt, w)
store_all ((a, c) ∷ ws) w = and_then (store a c w).0 (store a c w).1 (λ _. store_all ws)

module _ (p : Platform) where
  abbrev pub call : (c : Call) → Io (Reply c)
  call c w = (ok (p.librados w.log c), logged c w)

  -- `check_err(ret)?`
  abbrev pub check : ℤ → Io (Unit {0})
  check ret = lift (check_err p.overflow_checks ret)

  -- A call that returns nothing but its code.
  abbrev pub checked : (c : Call) → (Reply c → ℤ) → Io (Unit {0})
  checked c code = call c >>= λ r. check (code r)
