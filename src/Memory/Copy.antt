-- ===== src/Memory/Copy.antt =====
-- `memcpy`, `memset` and `memmove` of src/lib/memory.c on one array of bytes, in which the two
-- areas may overlap. An access past the array changes nothing.
use tbs_kernel.Base.{
  ℕ, zero, suc, ◌+◌, ◌-◌, ◌*◌, ◌/◌, ◌%◌, ◌^◌, ◌≤◌, ◌<◌, ◌≡◌, refl, sym, ap, ap₂, ◌∙◌, ◌≢◌, ◌↔◌, ◌⊎◌,
  inl, inr, Bool, true, false, not, ◌&&◌, ◌||◌, Option, none, some, List, [], ◌∷◌, ◌++◌, append-nil,
  append_assoc, arith, dec_lt, ℕ_discrete, ltb, leb, ◌==◌, if◌then◌else◌, ltb→lt, lt→ltb, ==_iff,
  Bool-cases, Option-cases, length, get_elem?, get_or, set, take, drop, replicate, length-append,
  length-set, get_or-set_self, get_or-set_ne, ◌>>=◌, All, All-append,
}
pub mod Areas

-- `while (n--) *d++ = *s++`
unfoldable pub copy_up : ℕ → ℕ → ℕ → List ℕ → List ℕ
copy_up zero d s bytes = bytes
copy_up (suc n) d s bytes = copy_up n (d + 1) (s + 1) (set bytes d (get_or bytes s 0))

-- `for (i = n; i != 0; i--) d[i - 1] = s[i - 1]`
unfoldable pub copy_down : ℕ → ℕ → ℕ → List ℕ → List ℕ
copy_down zero d s bytes = bytes
copy_down (suc n) d s bytes = copy_down n d s (set bytes (d + n) (get_or bytes (s + n) 0))

unfoldable pub memcpy : ℕ → ℕ → ℕ → List ℕ → List ℕ
memcpy dest src n bytes = copy_up n dest src bytes

-- `*p = c` stores the lowest byte.
unfoldable pub memset : ℕ → ℕ → ℕ → List ℕ → List ℕ
memset b c zero bytes = bytes
memset b c (suc len) bytes = memset (b + 1) c len (set bytes b (c % 256))

unfoldable pub memmove : ℕ → ℕ → ℕ → List ℕ → List ℕ
memmove dest src n bytes =
    if dest == src || n == 0
    then bytes
    else if ltb dest src
    then copy_up n dest src bytes
    else copy_down n dest src bytes
