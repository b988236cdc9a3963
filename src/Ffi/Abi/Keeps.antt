-- ===== src/Ffi/Abi/Keeps.antt =====
-- Runs whose calls keep to their declarations, put together from their parts.
use librados_rs.Base.{
  Bool, true, false, if◌then◌else◌, ◌≡◌, refl, [], ◌∷◌, Option, none, some, Option-cases, inl, inr,
}
use librados_rs.Error.{Bytes, RadosError, Outcome, ok, err, panic, fault, out_of_fuel}
use librados_rs.Text.{cstring, nul_position}
use librados_rs.Text.Laws.{NoNul, NoNul-nul_position, cstring-NoNul}
use librados_rs.Text.Refusals.{cstring_nul}
use librados_rs.Ffi.Memory.{Ptr}
use librados_rs.Ffi.Call.{Cell, Writes}
use librados_rs.Ffi.World.{
  World, Io, lift, ◌>>=◌, dropping, settled, failed, unwound, and_then, on_result, store_all, store,
}
use librados_rs.Ffi.Abi.Calls.{AllSound}

-- All calls so far are sound.
pub record Clean {A : Type 0} (r : Outcome A × World) : Type 0 where
  pub calls : AllSound r.1.log

pub clean : {A : Type 0} {r : Outcome A × World} → AllSound r.1.log → Clean r
clean h = record { calls = h }

-- A string is passed on if it has no NUL byte.
pub by_string :
    {A : Type 0} (s : Bytes) (k : Bytes → Io A) (w : World)
    → AllSound w.log
    → (NoNul s → Clean (k s w))
    → Clean ((lift (cstring s) >>= k) w)
by_string s k w h go = elim (Option-cases (nul_position s)) [
  | inl clean ↦ let n = NoNul-nul_position s clean in rw (cstring-NoNul s n) (go n)
  | inr (i, found) ↦ rw (cstring_nul s i found) (clean h)
]

pub by_outcome :
    {A B : Type 0} (o : Outcome A) (k : A → Io B) (w : World)
    → AllSound w.log
    → ((a : A) → o ≡ ok a → Clean (k a w))
    → Clean (and_then o w k)
by_outcome (ok a) k w h go = go a refl
by_outcome (err e) k w h go = clean h
by_outcome panic k w h go = clean h
by_outcome fault k w h go = clean h
by_outcome out_of_fuel k w h go = clean h

pub by_run :
    {A B : Type 0} (r : Outcome A × World) (k : A → Io B)
    → Clean r
    → ((a : A) (w' : World) → r ≡ (ok a, w') → AllSound w'.log → Clean (k a w'))
    → Clean (and_then r.0 r.1 k)
by_run (ok a, w) k h go = go a w refl h.calls
by_run (err e, w) k h go = clean h.calls
by_run (panic, w) k h go = clean h.calls
by_run (fault, w) k h go = clean h.calls
by_run (out_of_fuel, w) k h go = clean h.calls

-- A destructor or a statement that follows.
abbrev pub KeepsSound : (World → World) → Type 0
KeepsSound d = (w : World) → AllSound w.log → AllSound (d w).log

module _ {A : Type 0} where
  pub dropping-Clean :
      (r : Outcome A × World) (d : World → World) → Clean r → KeepsSound d → Clean (dropping r d)
  dropping-Clean (ok a, w) d h k = clean (k w h.calls)
  dropping-Clean (err e, w) d h k = clean (k w h.calls)
  dropping-Clean (panic, w) d h k = clean (k w h.calls)
  dropping-Clean (fault, w) d h k = clean h.calls
  dropping-Clean (out_of_fuel, w) d h k = clean h.calls

  pub settled-Clean :
      (r : Outcome A × World) (d : World → World) → Clean r → KeepsSound d → Clean (settled r d)
  settled-Clean (ok a, w) d h k = clean (k w h.calls)
  settled-Clean (err e, w) d h k = clean (k w h.calls)
  settled-Clean (panic, w) d h k = clean h.calls
  settled-Clean (fault, w) d h k = clean h.calls
  settled-Clean (out_of_fuel, w) d h k = clean h.calls

  pub failed-Clean :
      (r : Outcome A × World) (d : World → World) → Clean r → KeepsSound d → Clean (failed r d)
  failed-Clean (ok a, w) d h k = clean h.calls
  failed-Clean (err e, w) d h k = clean (k w h.calls)
  failed-Clean (panic, w) d h k = clean h.calls
  failed-Clean (fault, w) d h k = clean h.calls
  failed-Clean (out_of_fuel, w) d h k = clean h.calls

  pub unwound-Clean :
      (r : Outcome A × World) (d : World → World) → Clean r → KeepsSound d → Clean (unwound r d)
  unwound-Clean (ok a, w) d h k = clean h.calls
  unwound-Clean (err e, w) d h k = clean (k w h.calls)
  unwound-Clean (panic, w) d h k = clean (k w h.calls)
  unwound-Clean (fault, w) d h k = clean h.calls
  unwound-Clean (out_of_fuel, w) d h k = clean h.calls

-- What librados stores is not logged.
store-Clean :
    (c : Option Cell) (a : Ptr) (d : Cell) (w : World)
    → w.mem a ≡ c
    → AllSound w.log
    → Clean (store a d w)
store-Clean none a d w e h = rw (e, store) (clean h)
store-Clean (some _) a d w e h = rw (e, store) (clean h)

pub store_all-Clean : (ws : Writes) (w : World) → AllSound w.log → Clean (store_all ws w)
store_all-Clean [] w h = clean h
store_all-Clean ((a, d) ∷ ws) w h =
    by_run (store a d w) _ (store-Clean (w.mem a) a d w refl h)
      λ u w' e h'. store_all-Clean ws w' h'

-- One of two runs.
pub by_test :
    {A : Type 0} (b : Bool) (m k : Io A) (w : World)
    → Clean (m w)
    → Clean (k w)
    → Clean ((if b then m else k) w)
by_test true m k w x y = x
by_test false m k w x y = y

-- A `match` on a result.
pub by_result :
    {A B : Type 0} (o : Outcome A) (f : A → Io B) (g : RadosError → Io B) (w : World)
    → AllSound w.log
    → ((a : A) → Clean (f a w))
    → ((e : RadosError) → Clean (g e w))
    → Clean (on_result o f g w)
by_result (ok a) f g w h go stop = go a
by_result (err e) f g w h go stop = stop e
by_result panic f g w h go stop = clean h
by_result fault f g w h go stop = clean h
by_result out_of_fuel f g w h go stop = clean h

pub by_result_string :
    {A : Type 0} (s : Bytes) (f : Bytes → Io A) (g : RadosError → Io A) (w : World)
    → AllSound w.log
    → (NoNul s → Clean (f s w))
    → ((e : RadosError) → Clean (g e w))
    → Clean (on_result (cstring s) f g w)
by_result_string s f g w h go stop = elim (Option-cases (nul_position s)) [
  | inl all ↦ let n = NoNul-nul_position s all in rw (cstring-NoNul s n) (go n)
  | inr (i, found) ↦ rw (cstring_nul s i found) (stop _)
]

-- A `match` on an optional value.
pub by_option :
    {A B : Type 0} (o : Option A) (m : Io B) (k : A → Io B) (w : World)
    → Clean (m w)
    → ((a : A) → Clean (k a w))
    → let run : Io B = elim o [ none ↦ m | some a ↦ k a ] in Clean (run w)
by_option none m k w x y = x
by_option (some a) m k w x y = y a
