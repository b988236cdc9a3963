-- ===== src/IoCtx/Objects/Laws.antt =====
-- Object names that are no C strings.
use librados_rs.Base.{ℕ, ◌≡◌, refl, some}
use librados_rs.Error.{Bytes, nul, err}
use librados_rs.Text.{nul_position}
use librados_rs.Text.Refusals.{cstring_nul}
use librados_rs.Handles.{IoCtx}
use librados_rs.Ffi.World.{Platform, World}
use librados_rs.IoCtx.Objects.{write, write_full, append, read, stat, truncate, remove}
use librados_rs.IoCtx.Xattr.{getxattr}

-- With a NUL byte in the object's name, first at `i`, every operation on the object is refused
-- with that position, and librados is not called.
nul_in_name :
    (p : Platform) (io : IoCtx) (oid buf : Bytes) (offset fuel i : ℕ) (w : World)
    → nul_position oid ≡ some i
    → (write p io oid buf offset w ≡ (err (nul i oid), w))
      × (write_full p io oid buf w ≡ (err (nul i oid), w))
      × (append p io oid buf w ≡ (err (nul i oid), w))
      × (read p io oid buf offset w ≡ (err (nul i oid), w))
      × (stat p io oid w ≡ (err (nul i oid), w))
      × (truncate p io oid offset w ≡ (err (nul i oid), w))
      × (remove p io oid w ≡ (err (nul i oid), w))
      × (getxattr p fuel io oid buf w ≡ (err (nul i oid), w))
unfolding write write_full append read stat truncate remove getxattr
nul_in_name p io oid buf offset fuel i w h =
    rw (cstring_nul oid i h) (refl, refl, refl, refl, refl, refl, refl, refl)
