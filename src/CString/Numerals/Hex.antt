-- ===== src/CString/Numerals/Hex.antt =====
-- Padding and the hexadecimal printers of src/lib/string.c.

use tbs_kernel.Base.{
  dec_lt, ◌>>=◌, ◌⊎◌, ℕ, zero, suc, ◌+◌, ◌^◌, ◌≤◌, ◌<◌, ◌≡◌, refl, none, some, List, [], ◌∷◌, ◌++◌,
  arith, ◌==◌, if◌then◌else◌, length, Bool-cases, inl, inr, replicate, append_assoc, append-nil,
  sym, ◌∙◌, ◌-◌, false,
}
use tbs_kernel.CString.Numerals.{
  digits_loop, pad_loop, zeros_loop, hex_to_str, hex32_to_str, write_hex, hex64_to_str,
}
use tbs_kernel.CString.Numerals.Value.{value_of, value_of-hex, value_of-length}
use tbs_kernel.CString.Numerals.Room.{hex_room}

replicate-cons :
    (n : ℕ) (s : List ℕ) → replicate n b'0' ++ (b'0' ∷ s) ≡ b'0' ∷ (replicate n b'0' ++ s)
replicate-cons zero s = refl
replicate-cons (suc n) s = ground (arith, replicate-cons n s)

pad_loop-replicate :
    (cap n : ℕ) (buf : List ℕ)
    → length buf + n ≤ cap
    → pad_loop cap n buf ≡ some (replicate n b'0' ++ buf)
unfolding pad_loop
pad_loop-replicate cap zero buf h = refl
pad_loop-replicate cap (suc n) buf h =
    ground (arith, pad_loop-replicate cap n (b'0' ∷ buf), replicate-cons n buf)

pad_loop-overflow :
    (cap n : ℕ) (buf : List ℕ) → length buf ≤ cap → cap < length buf + n → pad_loop cap n buf ≡ none
unfolding pad_loop
pad_loop-overflow cap zero buf h k = absurd (omega arith)
pad_loop-overflow cap (suc n) buf h k = ground (arith, pad_loop-overflow cap n (b'0' ∷ buf))

zeros_loop-replicate : (n : ℕ) (out : List ℕ) → zeros_loop n out ≡ out ++ replicate n b'0'
unfolding zeros_loop
zeros_loop-replicate zero out = sym (append-nil out)
zeros_loop-replicate (suc n) out = simp (zeros_loop-replicate n, append_assoc)

value_of-zeros : (n : ℕ) (s : List ℕ) → value_of 16 0 (replicate n b'0' ++ s) ≡ value_of 16 0 s
unfolding value_of
value_of-zeros zero s = refl
value_of-zeros (suc n) s = ground (arith, value_of-zeros n s)

length-replicate-append : (n : ℕ) (s : List ℕ) → length (replicate n b'0' ++ s) ≡ n + length s
length-replicate-append zero s = omega arith
length-replicate-append (suc n) s = omega (arith, length-replicate-append n s)

digits_loop-zero : (room : ℕ) (buf : List ℕ) → digits_loop 16 room 0 buf ≡ some buf
unfolding digits_loop
digits_loop-zero zero buf = refl
digits_loop-zero (suc room) buf = refl

-- The digits before the padding.
hex_digits :
    (k cap v : ℕ)
    → v < 16 ^ k
    → 0 < k
    → k ≤ cap
    → (s : List ℕ) × ((if v == 0 then some (b'0' ∷ []) else digits_loop 16 cap v []) ≡ some s)
      × (length s ≤ k)
      × (value_of 16 0 s ≡ v)
hex_digits k cap v h p r = elim (Bool-cases (v == 0)) [
  | inl e ↦ (b'0' ∷ [], rw e, omega arith, unfold value_of in ground arith)
  | inr e ↦
      let (s, eq, len) = hex_room k cap v [] h r in
      (s, rw e eq, omega arith, value_of-hex cap v [] s eq ∙ unfold value_of in refl)
]

module _ (k cap v width : ℕ) (small : v < 16 ^ k) (pos_k : 0 < k) (k-le : k ≤ cap) where
  hex_to_str-fits :
      width ≤ cap
      → (s : List ℕ) × (hex_to_str cap v width ≡ some s)
        × (value_of 16 0 s ≡ v)
        × (width ≤ length s)
        × ((length s ≤ width) ⊎ (length s ≤ k))
  unfolding hex_to_str
  hex_to_str-fits fits =
      let (s, eq, len, val) = hex_digits k cap v small pos_k k-le in
      (
        replicate (width - length s) b'0' ++ s,
        ground (arith, pad_loop-replicate cap (width - length s) s),
        value_of-zeros (width - length s) s ∙ val,
        omega (arith, length-replicate-append (width - length s) s),
        elim (dec_lt (length s) width) [
          | yes p ↦ inl (omega (arith, length-replicate-append (width - length s) s))
          | no p ↦ inr (omega (arith, length-replicate-append (width - length s) s))
        ],
      )

  hex_to_str-overflow : cap < width → hex_to_str cap v width ≡ none
  unfolding hex_to_str
  hex_to_str-overflow wide =
      let (s, eq, len, val) = hex_digits k cap v small pos_k k-le in
      ground (arith, pad_loop-overflow cap (width - length s) s)

-- `hex32_to_str` with a width of at most 16 stays inside its buffer. Its output reads back as the
-- value, has at least `width` digits, and more than `width` only where the value needs them, and
-- then at most 8.
pub hex32_to_str-value :
    (v width : ℕ)
    → v < 2 ^ 32
    → width ≤ 16
    → (s : List ℕ) × (hex32_to_str v width ≡ some s)
      × (value_of 16 0 s ≡ v)
      × (width ≤ length s)
      × ((length s ≤ width) ⊎ (length s ≤ 8))
unfolding hex32_to_str
hex32_to_str-value v width h w = hex_to_str-fits 8 16 v width h (omega arith) (omega arith) w

-- With a width above 16 it writes past its 16-byte buffer, whatever the value.
pub hex32_to_str-overflow : (v width : ℕ) → v < 2 ^ 32 → 16 < width → hex32_to_str v width ≡ none
unfolding hex32_to_str
hex32_to_str-overflow v width h w = hex_to_str-overflow 8 16 v width h (omega arith) (omega arith) w

-- `write_hex` of `strconcat` appends what `hex64_to_str` prints, for every 64-bit value and width
-- up to the 32 bytes of the latter's buffer.
pub write_hex-hex64_to_str :
    (out : List ℕ) (v width : ℕ)
    → v < 2 ^ 64
    → width ≤ 32
    → write_hex out v width ≡ (hex64_to_str v width >>= λ s. some (out ++ s))
unfolding write_hex hex64_to_str hex_to_str
write_hex-hex64_to_str out zero zero h w = ground (arith, pad_loop-replicate 32 0 (b'0' ∷ []))
write_hex-hex64_to_str out zero (suc width) h w = ground (
  arith,
  pad_loop-replicate 32 width (b'0' ∷ []),
  zeros_loop-replicate (suc width) out,
  replicate-cons width [],
  append-nil {A = ℕ} (replicate width b'0'),
  append-nil {A = ℕ} (out ++ replicate (suc width) b'0'),
  digits_loop-zero 32 [],
)
write_hex-hex64_to_str out (suc v) width h w =
    let (s, eq, len, val) = hex_digits 16 32 (suc v) h (omega arith) (omega arith) in
    ground (
      arith,
      pad_loop-replicate 32 (width - length s) s,
      zeros_loop-replicate (width - length s) out,
      append_assoc out (replicate (width - length s) b'0') s,
    )

-- Without a width `write_hex` appends a numeral of the value.
pub write_hex-value_of :
    (v : ℕ) (out : List ℕ)
    → v < 2 ^ 64
    → (s : List ℕ) × (write_hex out v 0 ≡ some (out ++ s)) × (value_of 16 0 s ≡ v) × (0 < length s)
unfolding write_hex value_of
write_hex-value_of zero out small = (b'0' ∷ [], refl, ground arith, omega arith)
write_hex-value_of (suc v) out small =
    let (s, eq, len) = hex_room 16 32 (suc v) [] (omega (arith, small)) (omega arith) in
    let value = value_of-hex 32 (suc v) [] s eq in
    let no_zeros : 0 - length s ≡ 0 = omega arith in
    let positive : (suc v == 0) ≡ false = ground arith in
    (
      s,
      rw (positive, eq, no_zeros, zeros_loop-replicate 0 out, append-nil out) refl,
      value,
      value_of-length 16 v s value,
    )
