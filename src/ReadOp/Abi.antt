-- ===== src/ReadOp/Abi.antt =====
-- The calls that add a step to a compound read (src/read_op.rs) keep to their declarations.
pub mod Runs
use librados_rs.Base.{
  ℕ, zero, suc, ◌<◌, ◌^◌, ◌≡◌, refl, inl, inr, Option-cases, List, [], ◌∷◌, map, length, Option,
  none, some, arith,
}
use librados_rs.Error.{Bytes}
use librados_rs.Text.{nul_position, zeroed}
use librados_rs.Text.Refusals.{cstring_nul}
use librados_rs.Text.Laws.{NoNul-nul_position, cstring-NoNul, zeroed_ok-holds}
use librados_rs.Handles.{IoCtx}
use librados_rs.Ffi.Memory.{Ptr, from_raw_parts}
use librados_rs.Ffi.Call.{Call, Cell, NextReply}
use librados_rs.Ffi.World.{Platform, World, Io, ◌>>=◌, load, store_all, logged}
use librados_rs.Ffi.Abi.{AllBelow, Fits, const_char}
use librados_rs.Ffi.Abi.Calls.{AllSound, text_or_null}
use librados_rs.Ffi.Abi.Keeps.{
  Clean, clean, KeepsSound, by_string, by_outcome, by_option, by_run, dropping-Clean, unwound-Clean,
  store_all-Clean,
}
use librados_rs.IoCtx.Notify.{copy_payload}
use librados_rs.Omap.{OmapIter, drop_iter, pairs_loop, pairs}
use librados_rs.WriteOp.Abi.{Readable-lengths, AllBelow-wide, counted}
use librados_rs.ReadOp
use librados_rs.ReadOp.{ReadOp, Kind, Handle, drop_read_op, drop_steps, drop_step}
use librados_rs.ReadOp.Build.{ReadStep, add}
use librados_rs.ReadOp.Run.{
  into_result, step_result, step_results, submit, operate, read_one, prval_of,
}

-- The arguments as their Rust types bound them.
abbrev pub IsTyped : ReadStep → Type 0
IsTyped (ReadStep.read offset len) = offset < 2 ^ 64
IsTyped (ReadStep.omap_get_vals start prefix max) = max < 2 ^ 64
IsTyped (ReadStep.omap_get_keys start max) = max < 2 ^ 64
IsTyped (ReadStep.omap_get_vals_by_keys keys) =
    (length keys < 2 ^ 63) × AllBelow (2 ^ 63) (map (λ k. length k) keys)

-- An optional string is passed on if it has no NUL byte.
by_string_opt :
    {A : Type 0} (s : Option Bytes) (k : Option Bytes → Io A) (w : World)
    → AllSound w.log
    → (Fits const_char (text_or_null s) → Clean (k s w))
    → Clean ((ReadOp.cstring_opt s >>= k) w)
unfolding ReadOp.cstring_opt
by_string_opt none k w h go = go tt
by_string_opt (some s) k w h go = elim (Option-cases (nul_position s)) [
  | inl all ↦ let n = NoNul-nul_position s all in rw (cstring-NoNul s n) (go n)
  | inr (i, found) ↦ rw (cstring_nul s i found) (clean h)
]

pub omap_get_vals-Clean :
    (start prefix : Option Bytes) (max : ℕ) (o : ReadOp) (w : World)
    → max < 2 ^ 64
    → AllSound w.log
    → Clean (ReadOp.omap_get_vals o start prefix max w)
unfolding ReadOp.omap_get_vals
omap_get_vals-Clean start prefix max o w t h =
    by_string_opt start _ w h
      λ s. by_string_opt prefix _ w h λ f. clean ((tt, (s, (f, (t, (tt, (tt, (tt, tt))))))), h)

pub omap_get_keys-Clean :
    (start : Option Bytes) (max : ℕ) (o : ReadOp) (w : World)
    → max < 2 ^ 64
    → AllSound w.log
    → Clean (ReadOp.omap_get_keys o start max w)
unfolding ReadOp.omap_get_keys
omap_get_keys-Clean start max o w t h =
    by_string_opt start _ w h λ s. clean ((tt, (s, (t, (tt, (tt, (tt, tt)))))), h)

pub omap_get_vals_by_keys-Clean :
    (keys : List Bytes) (o : ReadOp) (w : World)
    → IsTyped (ReadStep.omap_get_vals_by_keys keys)
    → AllSound w.log
    → Clean (ReadOp.omap_get_vals_by_keys o keys w)
unfolding ReadOp.omap_get_vals_by_keys
omap_get_vals_by_keys-Clean keys o w (n, ks) h = clean (
  (
    tt,
    (
      (omega arith, Readable-lengths keys),
      (
        omega arith,
        (
          (counted (λ k. length k) keys, AllBelow-wide (map (λ k. length k) keys) ks),
          (tt, (tt, tt)),
        ),
      ),
    ),
  ),
  h,
)

pub add-Clean :
    (s : ReadStep) (o : ReadOp) (w : World) → IsTyped s → AllSound w.log → Clean (add s o w)
unfolding add ReadOp.read
add-Clean (ReadStep.read offset len) o w t h = by_outcome (zeroed len) _ w h λ buf e.
    let (holds, small) = zeroed_ok-holds len buf e in
    clean ((tt, (t, (omega arith, ((holds, small), (tt, (tt, tt)))))), h)
add-Clean (ReadStep.omap_get_vals start prefix max) o w t h =
    omap_get_vals-Clean start prefix max o w t h
add-Clean (ReadStep.omap_get_keys start max) o w t h = omap_get_keys-Clean start max o w t h
add-Clean (ReadStep.omap_get_vals_by_keys keys) o w t h = omap_get_vals_by_keys-Clean keys o w t h
