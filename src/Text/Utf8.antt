-- ===== src/Text/Utf8.antt =====
-- Well-formed UTF-8, and that reading it loses nothing.
use librados_rs.Base.{ℕ, ◌≤◌, ◌<◌, ◌≡◌, refl, List, [], ◌∷◌, arith, map}
use librados_rs.Error.{Bytes}
use librados_rs.Text.{from_utf8_lossy, scan_from, start, lead}

abbrev pub IsCont : ℕ → Type 0
IsCont b = (0x80 ≤ b) × (b ≤ 0xbf)

-- The table of well-formed sequences of the Unicode standard.
pub data IsUtf8 : Bytes → Type 0 where
  nil : IsUtf8 []
  one : {b : ℕ} {s : Bytes} → b < 0x80 → IsUtf8 s → IsUtf8 (b ∷ s)
  two : {b c : ℕ} {s : Bytes} → (0xc2 ≤ b) × (b ≤ 0xdf) → IsCont c → IsUtf8 s → IsUtf8 (b ∷ c ∷ s)
  three :
      {b c d : ℕ} {s : Bytes}
      → (0xe0 ≤ b) × (b ≤ 0xef)
      → IsCont c × (b ≡ 0xe0 → 0xa0 ≤ c) × (b ≡ 0xed → c ≤ 0x9f)
      → IsCont d
      → IsUtf8 s
      → IsUtf8 (b ∷ c ∷ d ∷ s)
  four :
      {b c d e : ℕ} {s : Bytes}
      → (0xf0 ≤ b) × (b ≤ 0xf4)
      → IsCont c × (b ≡ 0xf0 → 0x90 ≤ c) × (b ≡ 0xf4 → c ≤ 0x8f)
      → IsCont d
      → IsCont e
      → IsUtf8 s
      → IsUtf8 (b ∷ c ∷ d ∷ e ∷ s)

scan_from-IsUtf8 : {s : Bytes} → IsUtf8 s → scan_from start s ≡ s
unfolding scan_from lead
scan_from-IsUtf8 nil = refl
scan_from-IsUtf8 (one h r) = ground (arith, scan_from-IsUtf8 r)
scan_from-IsUtf8 (two h c r) = ground (arith, scan_from-IsUtf8 r)
scan_from-IsUtf8 (three h c d r) = ground (arith, scan_from-IsUtf8 r)
scan_from-IsUtf8 (four h c d e r) = ground (arith, scan_from-IsUtf8 r)

-- On well-formed UTF-8 the lossy reading is the identity.
pub from_utf8_lossy-IsUtf8 : {s : Bytes} → IsUtf8 s → from_utf8_lossy s ≡ s
unfolding from_utf8_lossy
from_utf8_lossy-IsUtf8 = scan_from-IsUtf8

abbrev pub All : (Bytes → Type 0) → List Bytes → Type 0
All P [] = Unit
All P (s ∷ ss) = P s × All P ss

pub map-from_utf8_lossy : (ss : List Bytes) → All IsUtf8 ss → map from_utf8_lossy ss ≡ ss
map-from_utf8_lossy [] h = refl
map-from_utf8_lossy (s ∷ ss) h = cc (from_utf8_lossy-IsUtf8 h.0, map-from_utf8_lossy ss h.1)

pub All-map :
    {P Q : Bytes → Type 0} → ((s : Bytes) → P s → Q s) → (ss : List Bytes) → All P ss → All Q ss
All-map f [] h = tt
All-map f (s ∷ ss) h = (f s h.0, All-map f ss h.1)
