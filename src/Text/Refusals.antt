-- ===== src/Text/Refusals.antt =====
-- Strings with a NUL byte, which a method refuses before it calls anything.
use librados_rs.Base.{ℕ, ◌≡◌, refl, List, [], ◌∷◌, none, some, Option-cases, inl, inr}
use librados_rs.Error.{Bytes, nul, Outcome, ok, err, panic, fault, out_of_fuel}
use librados_rs.Text.{nul_position, cstring}
use librados_rs.Text.Laws.{NoNul-nul_position, cstring-NoNul}
use librados_rs.Ffi.Call.{Call}
use librados_rs.Ffi.World.{World, Io, lift, ◌>>=◌}

pub cstring_nul : (s : Bytes) (i : ℕ) → nul_position s ≡ some i → cstring s ≡ err (nul i s)
unfolding cstring
cstring_nul s i h = rw (h, cstring)

-- The first string with a NUL byte is refused.
abbrev pub unless_nul : {A : Type 0} → List Bytes → Outcome A → Outcome A
unless_nul [] r = r
unless_nul (s ∷ ss) r = elim (nul_position s) [ none ↦ unless_nul ss r | some i ↦ err (nul i s) ]

-- A command is carried out if there is one.
abbrev pub obeyed : {A C S : Type 0} → (C → S → Outcome A × S) → Outcome C → S → Outcome A × S
obeyed f (ok c) σ = f c σ
obeyed f (err e) σ = (err e, σ)
obeyed f panic σ = (panic, σ)
obeyed f fault σ = (fault, σ)
obeyed f out_of_fuel σ = (out_of_fuel, σ)

-- The outcome is the one of the specification, and so is the state.
abbrev pub Meets : {A S : Type 0} → (List Call → S) → Outcome A × World → Outcome A × S → Type 0
Meets state (o, w') (o', σ) = (o ≡ o') × (state w'.log ≡ σ)

module _ {A : Type 0} (s : Bytes) (ss : List Bytes) (r : Outcome A) where
  unless_nul-clean : nul_position s ≡ none → unless_nul (s ∷ ss) r ≡ unless_nul ss r
  unless_nul-clean h = rw (h, unless_nul)

  unless_nul-found : (i : ℕ) → nul_position s ≡ some i → unless_nul (s ∷ ss) r ≡ err (nul i s)
  unless_nul-found i h = rw (h, unless_nul)

module _ {A C S : Type 0} (state : List Call → S) (f : C → S → Outcome A × S) where
  -- A string is passed on if it has no NUL byte.
  pub gate :
      (s : Bytes) (ss : List Bytes) (k : Bytes → Io A) (c : Outcome C) (w : World)
      → Meets state (k s w) (obeyed f (unless_nul ss c) (state w.log))
      → Meets state ((lift (cstring s) >>= k) w) (obeyed f (unless_nul (s ∷ ss) c) (state w.log))
  gate s ss k c w h = elim (Option-cases (nul_position s)) [
    | inl clean ↦ rw (unless_nul-clean s ss c clean, cstring-NoNul s (NoNul-nul_position s clean)) h
    | inr (i, found) ↦ rw (unless_nul-found s ss c i found, cstring_nul s i found) (refl, refl)
  ]
