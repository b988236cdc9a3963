-- ===== src/Ffi/Abi.antt =====
-- The C functions as src/ffi.rs declares them: the types of their parameters on a 64-bit target,
-- and what a call must pass for each.
pub mod Cluster
pub mod Objects
pub mod WriteOps
pub mod ReadOps
pub mod Declared
pub mod Calls
pub mod Keeps
use librados_rs.Base.{ℕ, ◌<◌, ◌≤◌, ◌^◌, List, [], ◌∷◌, length}
use librados_rs.Error.{Bytes}
use librados_rs.Text.Laws.{NoNul}
use librados_rs.Ffi.Memory.{Ptr, Room}

-- The types of the bindings. `handle` stands for the aliases of `*mut c_void` such as `rados_t`,
-- `const_ptr` and `mut_ptr` for pointers to anything but `c_char`.
pub data CType : Type 0 where
  c_int c_uint c_uchar uint8 uint32 uint64 size_t ssize_t void : CType
  handle const_char mut_char const_ptr mut_ptr callback : CType

-- A declaration.
pub record Signature : Type 0 where
  pub params : List CType
  pub ret : CType

-- An argument: a number, a pointer that librados handed out, the null pointer, a string that ends at
-- its first NUL, a buffer of which `n` bytes are read, or one to write to, an array of
-- `n` strings with the lengths that are read of each, an array of `n` lengths, a slot, or one of the
-- two trampolines.
pub data Value : Type 0 where
  number : ℕ → Value
  raw : Ptr → Value
  null : Value
  text : Bytes → Value
  block : Bytes → (n : ℕ) → Value
  room : Room → Value
  strings : List Bytes → List ℕ → (n : ℕ) → Value
  sizes : List ℕ → (n : ℕ) → Value
  slot : Value
  trampoline : Value

-- What is read of each string is there.
abbrev pub Readable : List Bytes → List ℕ → Type 0
Readable [] [] = Unit
Readable (s ∷ ss) (n ∷ ns) = (n ≤ length s) × Readable ss ns
Readable _ _ = ⊥

abbrev pub AllBelow : (bound : ℕ) → List ℕ → Type 0
AllBelow bound [] = Unit
AllBelow bound (n ∷ ns) = (n < bound) × AllBelow bound ns

-- The argument can be passed: a number is in the range of its type, a string has no other NUL, and
-- what is read or written is there.
abbrev pub Fits : CType → Value → Type 0
Fits c_int (number n) = n < 2 ^ 31
Fits c_uint (number n) = n < 2 ^ 32
Fits c_uchar (number n) = n < 2 ^ 8
Fits uint8 (number n) = n < 2 ^ 8
Fits uint32 (number n) = n < 2 ^ 32
Fits uint64 (number n) = n < 2 ^ 64
Fits size_t (number n) = n < 2 ^ 64
Fits handle (raw a) = Unit
Fits const_char null = Unit
Fits const_char (text s) = NoNul s
Fits const_char (block b n) = n ≤ length b
Fits mut_char (raw a) = Unit
Fits mut_char (text s) = NoNul s
Fits mut_char (room b) = (b.len ≤ b.held) × (b.held < 2 ^ 63)
Fits const_ptr (strings ss ns n) = (n ≤ length ss) × Readable ss ns
Fits const_ptr (sizes ns n) = (n ≤ length ns) × AllBelow (2 ^ 64) ns
Fits mut_ptr null = Unit
Fits mut_ptr (raw a) = Unit
Fits mut_ptr slot = Unit
Fits callback trampoline = Unit
Fits _ _ = ⊥

-- As many arguments as parameters, each of which fits.
abbrev pub Admits : List CType → List Value → Type 0
Admits [] [] = Unit
Admits (t ∷ ts) (v ∷ vs) = Fits t v × Admits ts vs
Admits _ _ = ⊥
