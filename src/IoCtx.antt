-- ===== src/IoCtx.antt =====
-- src/ioctx.rs: the operations on a pool.
pub mod Objects
pub mod Defined
pub mod Omap
pub mod Listing
pub mod Xattr
pub mod Locks
pub mod Notify
pub mod Watch
