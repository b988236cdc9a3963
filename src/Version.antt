-- ===== src/Version.antt =====
-- src/lib.rs: the version of librados, as major, minor and extra.
use librados_rs.Base.{ℤ}
use librados_rs.Ffi.Call.{Call}
use librados_rs.Ffi.World.{Platform, Io, call}

abbrev pub version : Platform → Io (ℤ × ℤ × ℤ)
version p = call p Call.version
