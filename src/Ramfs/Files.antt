-- ===== src/Ramfs/Files.antt =====
-- `ramfs_read` and `ramfs_write` of src/kernel/drivers/ramfs.c on a file that was created: its
-- block has as many bytes as its capacity says.
use tbs_kernel.Base.{
  ℕ, zero, suc, ◌+◌, ◌-◌, ◌^◌, ◌≤◌, ◌<◌, ◌≡◌, refl, sym, ap, ◌∙◌, ◌⊎◌, inl, inr, true, false, some,
  List, [], ◌∷◌, arith, ltb, leb, if◌then◌else◌, length, take, drop,
}
use tbs_kernel.Ramfs.{RamfsFile, patch, ramfs_write, ramfs_read}
use tbs_kernel.Base.Words.{add32, sub32}

-- The block has the capacity's size, the size is within it, and both are 32-bit words.
unfoldable pub IsFile : RamfsFile → Type 0
IsFile file =
    (length file.bytes ≡ file.capacity) × (file.size ≤ file.capacity) × (file.capacity < 2 ^ 32)

-- The number of bytes that fit behind an offset.
abbrev pub fitting : RamfsFile → ℕ → List ℕ → ℕ
fitting file offset s =
    if ltb file.capacity (offset + length s) then file.capacity - offset else length s

length-patch : (b : List ℕ) (o : ℕ) (s : List ℕ) → length (patch b o s) ≡ length b
unfolding patch
length-patch [] o s = refl
length-patch (x ∷ b) (suc o) s = ap suc (length-patch b o s)
length-patch (x ∷ b) zero [] = refl
length-patch (x ∷ b) zero (c ∷ s) = ap suc (length-patch b zero s)

slice-patch_self :
    (b : List ℕ) (o : ℕ) (s : List ℕ)
    → o + length s ≤ length b
    → take (length s) (drop o (patch b o s)) ≡ s
unfolding patch
slice-patch_self [] zero [] h = refl
slice-patch_self [] zero (c ∷ s) h = absurd (omega arith)
slice-patch_self [] (suc o) s h = absurd (omega arith)
slice-patch_self (x ∷ b) (suc o) s h = slice-patch_self b o s (omega arith)
slice-patch_self (x ∷ b) zero [] h = refl
slice-patch_self (x ∷ b) zero (c ∷ s) h = ap (◌∷◌ c) (slice-patch_self b zero s (omega arith))

drop-patch_after :
    (b : List ℕ) (o a : ℕ) (s : List ℕ) → o + length s ≤ a → drop a (patch b o s) ≡ drop a b
unfolding patch
drop-patch_after [] o a s h = refl
drop-patch_after (x ∷ b) (suc o) zero s h = absurd (omega arith)
drop-patch_after (x ∷ b) (suc o) (suc a) s h = drop-patch_after b o a s (omega arith)
drop-patch_after (x ∷ b) zero a [] h = refl
drop-patch_after (x ∷ b) zero zero (c ∷ s) h = absurd (omega arith)
drop-patch_after (x ∷ b) zero (suc a) (c ∷ s) h = drop-patch_after b zero a s (omega arith)

slice-patch_before :
    (b : List ℕ) (o a n : ℕ) (s : List ℕ)
    → a + n ≤ o
    → take n (drop a (patch b o s)) ≡ take n (drop a b)
unfolding patch
slice-patch_before b o a zero s h = refl
slice-patch_before [] o a (suc n) s h = refl
slice-patch_before (x ∷ b) zero a (suc n) s h = absurd (omega arith)
slice-patch_before (x ∷ b) (suc o) zero (suc n) s h =
    ap (◌∷◌ x) (slice-patch_before b o zero n s (omega arith))
slice-patch_before (x ∷ b) (suc o) (suc a) (suc n) s h =
    slice-patch_before b o a (suc n) s (omega arith)

length-take : (xs : List ℕ) (n : ℕ) → n ≤ length xs → length (take n xs) ≡ n
length-take xs zero h = refl
length-take [] (suc n) h = absurd (omega arith)
length-take (x ∷ xs) (suc n) h = ap suc (length-take xs n (omega arith))

-- What a write leaves behind.
abbrev pub after_write : RamfsFile → ℕ → List ℕ → RamfsFile
after_write file o s =
    let n = fitting file o s in
    record file {
      bytes = patch file.bytes o (take n s);
      size = if ltb file.size (o + n) then o + n else file.size;
    }

ramfs_write-fits :
    (file : RamfsFile) (o : ℕ) (s : List ℕ)
    → IsFile file
    → o ≤ file.capacity
    → o + length s < 2 ^ 32
    → ramfs_write file o s ≡ some (fitting file o s, after_write file o s)
unfolding ramfs_write IsFile
ramfs_write-fits file o s (full, within, word) ho hs =
    let sum : add32 o (length s) ≡ o + length s = omega arith in
    let difference : sub32 file.capacity o ≡ file.capacity - o = omega arith in
    let few : leb (fitting file o s) (length s) ≡ true = ground arith in
    let inside : o + fitting file o s ≤ file.capacity = ground arith in
    let room : leb (o + fitting file o s) (length file.bytes) ≡ true = ground arith in
    let end : add32 o (fitting file o s) ≡ o + fitting file o s = omega arith in
    rw (sum, difference, few, room, end) refl

ramfs_read-inside :
    (file : RamfsFile) (a n : ℕ)
    → a + n ≤ file.size
    → file.size ≤ length file.bytes
    → ramfs_read file a n ≡ some (take n (drop a file.bytes))
unfolding ramfs_read
ramfs_read-inside file a zero h w = ground arith
ramfs_read-inside file a (suc n) h w =
    let more : leb file.size a ≡ false = ground arith in
    let whole : ltb (file.size - a) (suc n) ≡ false = ground arith in
    let inside : leb (a + suc n) (length file.bytes) ≡ true = ground arith in
    rw (more, whole, inside) refl

-- A file that was created, and an offset within its capacity (the offset and the buffer's length
-- add up to a 32-bit word): `ramfs_write` writes the bytes that fit, all of them unless the
-- capacity ends first, and returns their number. The file is a well-formed one again, its size is
-- the old one or the end of what was written, whichever is larger; `ramfs_read` at that offset
-- returns the bytes written, and a read of any part of the old contents that ends before them or
-- starts behind them returns what it returned before.
pub ramfs_write-ramfs_read :
    (file : RamfsFile) (o : ℕ) (s : List ℕ)
    → IsFile file
    → o ≤ file.capacity
    → o + length s < 2 ^ 32
    → (file' : RamfsFile) × (ramfs_write file o s ≡ some (fitting file o s, file'))
      × IsFile file'
      × (file'.size
          ≡ (if ltb file.size (o + fitting file o s) then o + fitting file o s else file.size))
      × (ramfs_read file' o (fitting file o s) ≡ some (take (fitting file o s) s))
      × ((a n : ℕ)
          → a + n ≤ file.size
          → (a + n ≤ o) ⊎ (o + fitting file o s ≤ a)
          → ramfs_read file' a n ≡ ramfs_read file a n)
unfolding IsFile
ramfs_write-ramfs_read file o s (full, within, word) ho hs =
    let file' = after_write file o s in
    let n = fitting file o s in
    let t = take n s in
    let few : n ≤ length s = ground arith in
    let inside : o + n ≤ file.capacity = ground arith in
    let same : length file'.bytes ≡ length file.bytes = length-patch file.bytes o t in
    let count : length t ≡ n = length-take s n few in
    let grown : file.size ≤ file'.size = ground arith in
    let reached : o + n ≤ file'.size = ground arith in
    let bound : file'.size ≤ length file'.bytes = ground (arith, same) in
    (
      file',
      ramfs_write-fits file o s (full, within, word) ho hs,
      (same ∙ full, ground arith, word),
      refl,
      ramfs_read-inside file' o n reached bound
          ∙ ap some (
              ap (λ k. take k (drop o file'.bytes)) (sym count)
              ∙ slice-patch_self file.bytes o t (omega (arith, count))),
      λ a m h apart.
          let kept : take m (drop a file'.bytes) ≡ take m (drop a file.bytes) = (elim apart [
            | inl before ↦ slice-patch_before file.bytes o a m t before
            | inr after ↦ ap (take m) (drop-patch_after file.bytes o a t (omega (arith, count)))
          ]) in
          ramfs_read-inside file' a m (omega arith) bound
          ∙ ap some kept
          ∙ sym (ramfs_read-inside file a m h (omega arith)),
    )

pub length-slice : (xs : List ℕ) (o k : ℕ) → o + k ≤ length xs → length (take k (drop o xs)) ≡ k
length-slice xs zero k h = length-take xs k (omega (arith, h))
length-slice [] (suc o) k h = absurd (omega arith)
length-slice (x ∷ xs) (suc o) k h = length-slice xs o k (omega arith)
