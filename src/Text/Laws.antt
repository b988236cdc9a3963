-- ===== src/Text/Laws.antt =====
-- Laws of `CString::new`, and of splitting a packed list of strings.
use librados_rs.Base.{
  ℕ, ◌-◌, ◌<◌, ◌≤◌, ◌≡◌, ◌≢◌, ◌⊎◌, inl, inr, Option-cases, refl, sym, ◌∙◌, ap, List, [], ◌∷◌, ◌++◌,
  arith, none, length, take, length-append, append_assoc, take-append_left, ◌^◌, replicate,
  length-take, length-replicate,
}
use librados_rs.Error.{Bytes, nul, ok, err}
use librados_rs.Text.{zeroed, resize, slice_to, nul_position, cstring, split_nul, drop_empty}
use librados_rs.Text.Utf8.{All}

-- No byte is NUL.
abbrev pub NoNul : Bytes → Type 0
NoNul [] = Unit
NoNul (b ∷ s) = (b ≢ 0) × NoNul s

pub nul_position-NoNul : (s : Bytes) → NoNul s → nul_position s ≡ none
unfolding nul_position
nul_position-NoNul [] h = refl
nul_position-NoNul (b ∷ s) h = ground (arith, nul_position-NoNul s h.1)

pub NoNul-nul_position : (s : Bytes) → nul_position s ≡ none → NoNul s
unfolding nul_position
NoNul-nul_position [] h = tt
NoNul-nul_position (b ∷ s) h = ground (arith, NoNul-nul_position s)

pub cstring-NoNul : (s : Bytes) → NoNul s → cstring s ≡ ok s
unfolding cstring
cstring-NoNul s h = rw (nul_position-NoNul s h, cstring)

-- `CString::new` gives back the bytes, or a NUL error.
pub cstring-cases : (s : Bytes) → (cstring s ≡ ok s) ⊎ ((i : ℕ) × (cstring s ≡ err (nul i s)))
unfolding cstring
cstring-cases s = elim (Option-cases (nul_position s)) [
  | inl e ↦ inl (rw (e, cstring))
  | inr (i, e) ↦ inr (i, rw (e, cstring))
]

-- Strings packed one after the other, each with its NUL.
unfoldable pub pack : List Bytes → Bytes
pack [] = []
pack (s ∷ ss) = s ++ 0 ∷ pack ss

pub split_nul-append : (s rest : Bytes) → NoNul s → split_nul (s ++ 0 ∷ rest) ≡ s ∷ split_nul rest
unfolding split_nul
split_nul-append [] rest h = refl
split_nul-append (b ∷ s) rest h = ground (arith, split_nul-append s rest h.1)

pub split_nul-pack : (ss : List Bytes) → All NoNul ss → split_nul (pack ss) ≡ ss ++ [] ∷ []
unfolding pack split_nul
split_nul-pack [] h = refl
split_nul-pack (s ∷ ss) h = cc (split_nul-append s (pack ss) h.0, split_nul-pack ss h.1)

-- The same with no NUL behind the last string.
unfoldable pub join : Bytes → List Bytes → Bytes
join s [] = s
join s (t ∷ ss) = s ++ 0 ∷ join t ss

pack-join : (s : Bytes) (ss : List Bytes) → pack (s ∷ ss) ≡ join s ss ++ 0 ∷ []
unfolding pack join
pack-join s [] = refl
pack-join s (t ∷ ss) =
    ap (λ r. s ++ 0 ∷ r) (pack-join t ss) ∙ sym (append_assoc s (0 ∷ join t ss) (0 ∷ []))

pub split_nul_single : (s : Bytes) → NoNul s → split_nul s ≡ s ∷ []
unfolding split_nul
split_nul_single [] h = refl
split_nul_single (b ∷ s) h = ground (arith, split_nul_single s h.1)

pub split_nul-join :
    (s : Bytes) (ss : List Bytes) → NoNul s → All NoNul ss → split_nul (join s ss) ≡ s ∷ ss
unfolding join
split_nul-join s [] h hs = split_nul_single s h
split_nul-join s (t ∷ ss) h hs =
    split_nul-append s (join t ss) h ∙ ap (◌∷◌ s) (split_nul-join t ss hs.0 hs.1)

-- Packed strings less their last byte split into exactly those strings.
pub split_nul-take-pack :
    (s : Bytes) (ss : List Bytes) (rest : Bytes)
    → All NoNul (s ∷ ss)
    → split_nul (take (length (pack (s ∷ ss)) - 1) (pack (s ∷ ss) ++ rest)) ≡ s ∷ ss
split_nul-take-pack s ss rest h =
    let e = pack-join s ss in
    let n : length (pack (s ∷ ss)) - 1 ≡ length (join s ss) =
      omega (arith, ap length e, length-append (join s ss) (0 ∷ [])) in
    rw (n, e, append_assoc, take-append_left (length (join s ss)) (join s ss) (0 ∷ rest) refl)
      (split_nul-join s ss h.0 h.1)

pub drop_empty-pack : (ss : List Bytes) → All (λ s. s ≢ []) ss → drop_empty (ss ++ [] ∷ []) ≡ ss
unfolding drop_empty
drop_empty-pack [] h = refl
drop_empty-pack ([] ∷ ss) h = absurd (h.0 refl)
drop_empty-pack ((b ∷ s) ∷ ss) h = ap (◌∷◌ (b ∷ s)) (drop_empty-pack ss h.1)

pub resize-ok :
    (buf : Bytes) (n : ℕ)
    → n < 2 ^ 63
    → resize buf n ≡ ok (take n buf ++ replicate (n - length buf) 0)
unfolding resize
resize-ok buf n h = ground arith

pub length-resized :
    (buf : Bytes) (n : ℕ) → length (take n buf ++ replicate {A = ℕ} (n - length buf) 0) ≡ n
length-resized buf n = omega (
  arith,
  length-append (take n buf) (replicate {A = ℕ} (n - length buf) 0),
  length-take n buf,
  length-replicate {A = ℕ} (n - length buf) 0,
)

-- The front of a buffer, sliced out again.
pub slice_to-append : (s rest : Bytes) → slice_to (s ++ rest) (length s) ≡ ok s
unfolding slice_to
slice_to-append s rest =
    rw (take-append_left (length s) s rest refl) (ground (arith, length-append s rest))

pub zeroed-ok : (n : ℕ) → n < 2 ^ 63 → zeroed n ≡ ok (replicate n 0)
unfolding zeroed
zeroed-ok n h = ground arith

-- What could be made is shorter than 2 ^ 63 bytes.
pub resize_ok-bound : (buf : Bytes) (n : ℕ) (b : Bytes) → resize buf n ≡ ok b → length b < 2 ^ 63
unfolding resize
resize_ok-bound buf n b h = let e = length-resized buf n in grind arith

pub zeroed_ok-holds : (n : ℕ) (b : Bytes) → zeroed n ≡ ok b → (n ≤ length b) × (length b < 2 ^ 63)
unfolding zeroed
zeroed_ok-holds n b h = let l = length-replicate {A = ℕ} n 0 in grind arith
