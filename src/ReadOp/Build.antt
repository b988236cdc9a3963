-- ===== src/ReadOp/Build.antt =====
-- Building a compound read: every method keeps the op wired, and hands out a handle that names its
-- own step.
use librados_rs.Base.{
  ℕ, ◌+◌, ◌<◌, ◌^◌, ◌≡◌, refl, sym, ap, ◌∙◌, pos, List, [], ◌∷◌, ◌++◌, map, Option, some, arith,
  inl, ==_refl, length, get_elem?-append_last, get_elem?-append_some, map-append, replicate,
  length-map,
}
use librados_rs.Error.{Bytes, ok}
use librados_rs.Text.Laws.{zeroed-ok}
use librados_rs.Ffi.Memory.{room_of, Ptr}
use librados_rs.Ffi.Call.{Call, Cell}
use librados_rs.Ffi.World.{World, Io, poke}
use librados_rs.ReadOp
use librados_rs.ReadOp.{Kind, Handle, ReadOp, push}
use librados_rs.ReadOp.Pages.{NoNulOpt, cstring_opt-NoNul}
use librados_rs.ReadOp.Wired.{Slot, registered, IsCell, Alive-alloc, IsWired, Names}

-- A call of a method of `ReadOp` that adds a step with a handle.
pub data ReadStep : Type 0 where
  read : (offset len : ℕ) → ReadStep
  omap_get_vals : (start_after filter_prefix : Option Bytes) → (max_return : ℕ) → ReadStep
  omap_get_keys : (start_after : Option Bytes) → (max_return : ℕ) → ReadStep
  omap_get_vals_by_keys : List Bytes → ReadStep

abbrev pub kind_of : ReadStep → Kind
kind_of (ReadStep.read offset len) = Kind.data_kind
kind_of (ReadStep.omap_get_vals start prefix max) = Kind.vals_kind
kind_of (ReadStep.omap_get_keys start max) = Kind.keys_kind
kind_of (ReadStep.omap_get_vals_by_keys keys) = Kind.vals_kind

-- The strings are free of NUL bytes, and the length is that of a vector.
abbrev pub IsAccepted : ReadStep → Type 0
IsAccepted (ReadStep.read offset len) = len < 2 ^ 63
IsAccepted (ReadStep.omap_get_vals start prefix max) = NoNulOpt start × NoNulOpt prefix
IsAccepted (ReadStep.omap_get_keys start max) = NoNulOpt start
IsAccepted (ReadStep.omap_get_vals_by_keys keys) = Unit

unfoldable pub add : (s : ReadStep) → ReadOp → Io (ReadOp × Handle (kind_of s))
add (ReadStep.read offset len) o = ReadOp.read o offset len
add (ReadStep.omap_get_vals start prefix max) o = ReadOp.omap_get_vals o start prefix max
add (ReadStep.omap_get_keys start max) o = ReadOp.omap_get_keys o start max
add (ReadStep.omap_get_vals_by_keys keys) o = ReadOp.omap_get_vals_by_keys o keys

-- The world after a box has been made and its address passed on.
abbrev boxed_in : World → Call → Cell → World
boxed_in w call c = record {
  log = call ∷ w.log;
  next = w.next + 1;
  mem = poke w.mem w.next (some c);
}

-- The boxes of the omap steps, before the op has run.
abbrev empty_vals : Cell
empty_vals = Cell.vals_step (record { iter = 0; more = 0; prval = pos 0 })

abbrev empty_keys : Cell
empty_keys = Cell.keys_step (record { iter = 0; more = 0; prval = pos 0 })

module _ (k : Kind) (o : ReadOp) (slots : List Slot) (w : World) (wired : IsWired o slots w) where
  abbrev more : List Slot
  more = slots ++ (w.next, k) ∷ []

  push-IsWired :
      (call : Call) (c : Cell)
      → registered o.op (call ∷ w.log) ≡ registered o.op w.log ++ (w.next, k) ∷ []
      → IsCell k c
      → IsWired (push k o w.next).0 more (boxed_in w call c)
  unfolding push
  push-IsWired call c e cell = record {
    held = e ∙ ap (λ (l : List Slot). l ++ (w.next, k) ∷ []) wired.held;
    steps =
        ap (λ (l : List Ptr). l ++ w.next ∷ []) wired.steps
        ∙ sym (map-append (λ (s : Slot). s.0) slots ((w.next, k) ∷ []));
    alive = Alive-alloc w (call ∷ w.log) c k 0 slots wired.alive (omega arith) cell;
  }

  push-index : (push k o w.next).1.index ≡ length slots
  unfolding push
  push-index = rw (wired.steps, length-map (λ (s : Slot). s.0) slots)

  push-Names : Names (push k o w.next).1 (push k o w.next).0 more
  unfolding push
  push-Names = record {
    own = refl;
    address = w.next;
    slot =
        rw (wired.steps, length-map (λ (s : Slot). s.0) slots)
          (get_elem?-append_last slots (w.next, k));
  }

-- A handle goes on naming its step.
pub Names-append :
    {k : Kind} (h : Handle k) (o o' : ReadOp) (slots more : List Slot)
    → o'.operation ≡ o.operation
    → Names h o slots
    → Names h o' (slots ++ more)
Names-append h o o' slots more e n = record {
  own = n.own ∙ sym e;
  address = n.address;
  slot = get_elem?-append_some slots more h.index n.slot;
}

-- A method whose arguments are accepted succeeds on a well-formed op: the op stays well-formed,
-- with one more slot, of the kind of the step, and the handle names that
-- slot by its index.
pub add-IsWired :
    (s : ReadStep) (o : ReadOp) (slots : List Slot) (w : World)
    → IsAccepted s
    → IsWired o slots w
    → let (r, w') = add s o w in
      let slots' = slots ++ (w.next, kind_of s) ∷ [] in
      (o' : ReadOp) × (h : Handle (kind_of s)) × (r ≡ ok (o', h))
      × IsWired o' slots' w'
      × Names h o' slots'
      × (h.index ≡ length slots)
      × (o'.op ≡ o.op)
      × (o'.operation ≡ o.operation)
unfolding add registered push ReadOp.read ReadOp.omap_get_vals ReadOp.omap_get_keys
    ReadOp.omap_get_vals_by_keys
add-IsWired (ReadStep.read offset len) o slots w small wired =
    let c = Cell.data_step (record { buf = replicate len 0; bytes_read = 0; prval = pos 0 }) in
    let call = Call.read_op_read o.op offset (room_of (replicate len 0) len) w.next in
    rw (zeroed-ok len small) (
      (push Kind.data_kind o w.next).0,
      (push Kind.data_kind o w.next).1,
      refl,
      push-IsWired Kind.data_kind o slots w wired call c (rw (==_refl o.op)) (inl (0, refl)),
      push-Names Kind.data_kind o slots w wired,
      push-index Kind.data_kind o slots w wired,
      refl,
      refl,
    )
add-IsWired (ReadStep.omap_get_vals start prefix max) o slots w clean wired =
    let call = Call.read_op_omap_get_vals2 o.op start prefix max w.next in
    rw (cstring_opt-NoNul start w clean.0, cstring_opt-NoNul prefix w clean.1)
      (
        (push Kind.vals_kind o w.next).0,
        (push Kind.vals_kind o w.next).1,
        refl,
        push-IsWired Kind.vals_kind o slots w wired call empty_vals (rw (==_refl o.op))
            (inl (0, refl)),
        push-Names Kind.vals_kind o slots w wired,
        push-index Kind.vals_kind o slots w wired,
        refl,
        refl,
      )
add-IsWired (ReadStep.omap_get_keys start max) o slots w clean wired =
    let call = Call.read_op_omap_get_keys2 o.op start max w.next in
    rw (cstring_opt-NoNul start w clean) (
      (push Kind.keys_kind o w.next).0,
      (push Kind.keys_kind o w.next).1,
      refl,
      push-IsWired Kind.keys_kind o slots w wired call empty_keys (rw (==_refl o.op))
          (inl (0, refl)),
      push-Names Kind.keys_kind o slots w wired,
      push-index Kind.keys_kind o slots w wired,
      refl,
      refl,
    )
add-IsWired (ReadStep.omap_get_vals_by_keys keys) o slots w clean wired =
    let lens = map (λ (k : Bytes). length k) keys in
    let call = Call.read_op_omap_get_vals_by_keys2 o.op keys (length keys) lens w.next in
    (
      (push Kind.vals_kind o w.next).0,
      (push Kind.vals_kind o w.next).1,
      refl,
      push-IsWired Kind.vals_kind o slots w wired call empty_vals (rw (==_refl o.op))
          (inl (0, refl)),
      push-Names Kind.vals_kind o slots w wired,
      push-index Kind.vals_kind o slots w wired,
      refl,
      refl,
    )
