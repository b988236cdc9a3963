-- ===== src/Text.antt =====
-- What the source uses of std on byte strings: `CString::new`, `split` at NUL bytes,
-- `String::from_utf8_lossy`, `Vec::resize`, slicing, and `usize` subtraction. A Rust `str` or
-- `[u8]` is the list of its bytes.
pub mod Laws
pub mod Refusals
pub mod Utf8
use librados_rs.Base.{
  ℕ, suc, zero, ◌+◌, ◌-◌, ◌^◌, ◌≡◌, Bool, true, false, List, [], ◌∷◌, ◌++◌, Option, none, some,
  ◌==◌, ltb, leb, ◌&&◌, length, take, replicate, if◌then◌else◌,
}
use librados_rs.Error.{Bytes, nul, Outcome, ok, err, panic}

-- The position of the first NUL byte.
unfoldable pub nul_position : Bytes → Option ℕ
nul_position [] = none
nul_position (b ∷ s) =
    if b == 0 then some 0 else elim (nul_position s) [ none ↦ none | some i ↦ some (suc i) ]

-- `CString::new`
unfoldable pub cstring : Bytes → Outcome Bytes
cstring s = elim (nul_position s) [ none ↦ ok s | some i ↦ err (nul i s) ]

abbrev pub cons_head : ℕ → List Bytes → List Bytes
cons_head b [] = (b ∷ []) ∷ []
cons_head b (s ∷ ss) = (b ∷ s) ∷ ss

-- `split(|&b| b == 0)`
unfoldable pub split_nul : Bytes → List Bytes
split_nul [] = [] ∷ []
split_nul (b ∷ s) = if b == 0 then [] ∷ split_nul s else cons_head b (split_nul s)

abbrev pub is_empty : {A : Type 0} → List A → Bool
is_empty [] = true
is_empty (_ ∷ _) = false

-- `filter(|s| !s.is_empty())`
unfoldable pub drop_empty : List Bytes → List Bytes
drop_empty [] = []
drop_empty (s ∷ ss) = if is_empty s then drop_empty ss else s ∷ drop_empty ss

-- `&s[..n]`
unfoldable pub slice_to : {A : Type 0} → List A → ℕ → Outcome (List A)
slice_to s n = if leb n (length s) then ok (take n s) else panic

-- `buf.resize(n, 0)`; a vector has at most isize::MAX bytes.
unfoldable pub resize : Bytes → ℕ → Outcome Bytes
resize buf n = if ltb n (2 ^ 63) then ok (take n buf ++ replicate (n - length buf) 0) else panic

-- `vec![0u8; n]`
unfoldable pub zeroed : ℕ → Outcome Bytes
zeroed n = if ltb n (2 ^ 63) then ok (replicate n 0) else panic

-- `a - b` on `usize`.
unfoldable pub sub_usize : Bool → ℕ → ℕ → Outcome ℕ
sub_usize checks a b = if leb b a then ok (a - b) else if checks then panic else ok (a + 2 ^ 64 - b)

-- U+FFFD
abbrev pub replacement : Bytes
replacement = 0xef ∷ 0xbf ∷ 0xbd ∷ []

-- In a scan, the bytes seen of an unfinished character, how many it still wants, and the range
-- of the next one.
pub data Scan : Type 0 where
  start : Scan
  after : (seen : Bytes) → (left lo hi : ℕ) → Scan

-- `b` begins a character, or stands for no character.
unfoldable pub lead : ℕ → Bytes × Scan
lead b =
    if ltb b 0x80
    then (b ∷ [], start)
    else if ltb b 0xc2
    then (replacement, start)
    else if ltb b 0xe0
    then ([], after (b ∷ []) 1 0x80 0xbf)
    else if ltb b 0xf0
    then (
      [],
      after (b ∷ []) 2 (if b == 0xe0 then 0xa0 else 0x80) (if b == 0xed then 0x9f else 0xbf),
    )
    else if ltb b 0xf5
    then (
      [],
      after (b ∷ []) 3 (if b == 0xf0 then 0x90 else 0x80) (if b == 0xf4 then 0x8f else 0xbf),
    )
    else (replacement, start)

unfoldable pub feed : Scan → ℕ → Bytes × Scan
unfolding lead
feed start b = lead b
feed (after seen left lo hi) b =
    if leb lo b && leb b hi
    then (if left == 1
        then (seen ++ b ∷ [], start)
        else ([], after (seen ++ b ∷ []) (left - 1) 0x80 0xbf))
    else (replacement ++ (lead b).0, (lead b).1)

abbrev pub finish : Scan → Bytes
finish start = []
finish (after _ _ _ _) = replacement

unfoldable pub scan_from : Scan → Bytes → Bytes
unfolding feed
scan_from st [] = finish st
scan_from st (b ∷ s) = (feed st b).0 ++ scan_from (feed st b).1 s

-- `String::from_utf8_lossy`: each maximal part of an ill-formed sequence becomes U+FFFD.
unfoldable pub from_utf8_lossy : Bytes → Bytes
unfolding scan_from
from_utf8_lossy s = scan_from start s
