-- ===== src/Ffi.antt =====
-- The boundary to librados. librados itself is not part of the repository: it is a parameter, a
-- function from the calls made so far to the reply of the next one (`Platform`). The structs are
-- those of src/ffi.rs; `Call` has a constructor for each function that src/*.rs calls, with
-- the arguments passed, and `Reply` gives the return value with what is written through out
-- pointers.
pub mod World
pub mod Abi
pub mod Defined
pub mod History
pub mod Call
pub mod Memory
pub mod Buffers
