-- ===== src/ReadOp/Batch.antt =====
-- A compound read built from a list of steps, and the handles that it hands out.
use librados_rs.Base.{
  ℕ, suc, ◌+◌, ◌≤◌, ◌≡◌, refl, sym, ◌∙◌, List, [], ◌∷◌, ◌++◌, map, length, arith, append-nil,
  append_assoc, length-append,
}
use librados_rs.Error.{ok}
use librados_rs.Ffi.World.{World, Io, pure, ◌>>=◌}
use librados_rs.ReadOp.{Kind, Handle, ReadOp}
use librados_rs.ReadOp.Wired.{Slot, IsWired, Names}
use librados_rs.ReadOp.Build.{ReadStep, kind_of, IsAccepted, add, add-IsWired, Names-append}

abbrev pub AnyHandle : Type 0
AnyHandle = (k : Kind) × Handle k

-- The methods in turn, and the handles that they give.
unfoldable pub add_all : List ReadStep → ReadOp → Io (ReadOp × List AnyHandle)
add_all [] o = pure (o, [])
add_all (s ∷ steps) o = do
  (o₁, h) ← add s o
  (o₂, hs) ← add_all steps o₁
  pure (o₂, (kind_of s, h) ∷ hs)

abbrev pub AllAccepted : List ReadStep → Type 0
AllAccepted [] = Unit
AllAccepted (s ∷ steps) = IsAccepted s × AllAccepted steps

abbrev pub AllName : List AnyHandle → ReadOp → List Slot → Type 0
AllName [] o slots = Unit
AllName ((k, h) ∷ hs) o slots = Names h o slots × AllName hs o slots

-- The indices of the handles rise from `lo`.
abbrev pub RisesFrom : (lo : ℕ) → List AnyHandle → Type 0
RisesFrom lo [] = Unit
RisesFrom lo ((k, h) ∷ hs) = (lo ≤ h.index) × RisesFrom (suc h.index) hs

RisesFrom-le : {lo lo' : ℕ} (hs : List AnyHandle) → lo ≤ lo' → RisesFrom lo' hs → RisesFrom lo hs
RisesFrom-le [] le h = tt
RisesFrom-le ((k, x) ∷ hs) le h = (omega arith, h.1)

-- Building from a well-formed op: every method succeeds, and the handles name steps of their kinds,
-- each by an index of its own.
abbrev pub Builds : List ReadStep → ReadOp → List Slot → World → Type 0
Builds steps o slots w =
    (o' : ReadOp) × (hs : List AnyHandle) × (slots' : List Slot) × ((add_all steps o w).0
      ≡ ok (o', hs))
    × IsWired o' slots' (add_all steps o w).1
    × AllName hs o' slots'
    × RisesFrom (length slots) hs
    × (map (λ (h : AnyHandle). h.0) hs ≡ map kind_of steps)
    × ((more : List Slot) × (slots' ≡ slots ++ more))
    × (o'.operation ≡ o.operation)
    × (o'.op ≡ o.op)

pub add_all-Builds :
    (steps : List ReadStep) (o : ReadOp) (slots : List Slot) (w : World)
    → AllAccepted steps
    → IsWired o slots w
    → Builds steps o slots w
unfolding add_all
add_all-Builds [] o slots w h wired =
    (o, [], slots, refl, wired, tt, tt, refl, ([], sym (append-nil slots)), refl, refl)
add_all-Builds (s ∷ steps) o slots w h wired =
    let (o₁, h₁, ran, wired₁, names, index, op, operation) = add-IsWired s o slots w h.0 wired in
    let slots₁ = slots ++ (w.next, kind_of s) ∷ [] in
    let (o₂, hs, slots₂, ran', wired₂, all, rises, kinds, (more, ext), operation', op') =
      add_all-Builds steps o₁ slots₁ (add s o w).1 h.1 wired₁ in
    let grown : length slots₁ ≡ length slots + 1 = length-append slots ((w.next, kind_of s) ∷ []) in
    let first : Names h₁ o₂ slots₂ = rw ext (Names-append h₁ o₁ o₂ slots₁ more operation' names) in
    let rises' : RisesFrom (suc h₁.index) hs = RisesFrom-le hs (omega arith) rises in
    (
      o₂,
      (kind_of s, h₁) ∷ hs,
      slots₂,
      rw (ran, ran'),
      rw (ran, ran') wired₂,
      (first, all),
      (omega arith, rises'),
      rw kinds,
      ((w.next, kind_of s) ∷ more, ext ∙ append_assoc slots ((w.next, kind_of s) ∷ []) more),
      operation' ∙ operation,
      op' ∙ op,
    )
