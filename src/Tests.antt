-- ===== src/Tests.antt =====
-- Runs on concrete clusters.
mod Cluster
mod Reading
mod Notifying
mod Writing
mod Handling
mod Paging
mod Owning
mod Building
mod Storing
mod Judging
mod Mapping
mod Changing
mod Administering
mod Watching
mod Locking
mod Calling
