-- ===== src/Client/Abi.antt =====
-- Whatever a client does, the library calls librados as src/ffi.rs declares it.
use librados_rs.Handles.{IoCtx}
use librados_rs.Ffi.Call
use librados_rs.Ffi.World.{World}
use librados_rs.Conn
use librados_rs.Conn.Abi as ConnAbi
use librados_rs.IoCtx.Objects
use librados_rs.IoCtx.Objects.Abi as ObjectsAbi
use librados_rs.IoCtx.Locks.Abi as LocksAbi
use librados_rs.IoCtx.Omap as Omap
use librados_rs.ReadOp
use librados_rs.ReadOp.Query.{Query}
use librados_rs.ReadOp.Abi as ReadAbi
use librados_rs.ReadOp.Abi.Runs as ReadRuns
use librados_rs.WriteOp
use librados_rs.WriteOp.Abi as WriteAbi
