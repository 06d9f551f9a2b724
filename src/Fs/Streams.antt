-- ===== src/Fs/Streams.antt =====
-- `sys_read` and `sys_write` of src/lib/fs.c as a stream: what the offset of a file object does.
use tbs_kernel.Base.{
  ℕ, zero, suc, ◌+◌, ◌-◌, ◌^◌, ◌≤◌, ◌<◌, ◌≡◌, refl, sym, ap, ◌∙◌, ◌⊎◌, inl, inr, true, false, some,
  List, [], ◌∷◌, ◌++◌, arith, ltb, leb, ◌==◌, if◌then◌else◌, Bool-cases, length, take, drop,
}
use tbs_kernel.Ramfs.{RamfsFile, ramfs_read, as_file, Ramfs}
use tbs_kernel.Ramfs.Files.{IsFile, length-slice}
use tbs_kernel.Base.Int.{ℤ}
use tbs_kernel.Fs.{Fs, sys_read, file_of, advance, OpenFile}
use tbs_kernel.Base.Words.{add32}
use tbs_kernel.Ramfs.Directories.{update_self}
use tbs_kernel.Memory.Allocator.{Allocator}

-- The bytes of a file that a read at an offset can give.
abbrev readable : RamfsFile → ℕ → ℕ → ℕ
readable file o n = if ltb (file.size - o) n then file.size - o else n

ramfs_read-readable :
    (file : RamfsFile) (o n : ℕ)
    → IsFile file
    → (ramfs_read file o n ≡ some (take (readable file o n) (drop o file.bytes)))
      × (length (take (readable file o n) (drop o file.bytes)) ≡ readable file o n)
unfolding ramfs_read IsFile
ramfs_read-readable file o n (full, within, word) = elim (Bool-cases (ltb o file.size)) [
  | inl h ↦
      let k = readable file o n in
      let more : leb file.size o ≡ false = ground arith in
      let fits : o + k ≤ length file.bytes = ground (arith, full) in
      let inside : leb (o + k) (length file.bytes) ≡ true = ground (arith, fits) in
      (rw (more, inside) refl, length-slice file.bytes o k fits)
  | inr h ↦
      let over : leb file.size o ≡ true = ground arith in
      let none_left : readable file o n ≡ 0 = ground arith in
      (rw (over, none_left) refl, rw none_left refl)
]

take_after_take :
    (xs : List ℕ) (o k j : ℕ)
    → o + k ≤ length xs
    → take k (drop o xs) ++ take j (drop (o + k) xs) ≡ take (k + j) (drop o xs)
take_after_take xs zero zero j h = ap (λ n. take n xs) (omega arith)
take_after_take [] zero (suc k) j h = absurd (omega (arith, h))
take_after_take (x ∷ xs) zero (suc k) j h =
    let e : 0 + suc k ≡ suc k = omega arith in
    let e' : suc k + j ≡ suc (k + j) = omega arith in
    let e0 : 0 + k ≡ k = omega arith in
    rw (e, e')
      (ap (◌∷◌ x) (
        ap (λ n. take k xs ++ take j (drop n xs)) (sym e0)
        ∙ take_after_take xs zero k j (omega (arith, h))))
take_after_take [] (suc o) k j h = absurd (omega (arith, h))
take_after_take (x ∷ xs) (suc o) k j h =
    let e : suc o + k ≡ suc (o + k) = omega arith in
    rw e (take_after_take xs o k j (omega (arith, h)))

slice_parts :
    (xs : List ℕ) (o k j q : ℕ)
    → (k ≡ 0) ⊎ (o + k ≤ length xs)
    → k + j ≡ q
    → take k (drop o xs) ++ take j (drop (o + k) xs) ≡ take q (drop o xs)
slice_parts xs o k j q (inr inside) sum = rw (← sum) (take_after_take xs o k j inside)
slice_parts xs o k j q (inl none_left) sum =
    let same : o + 0 ≡ o = omega arith in
    let all : j ≡ q = omega (arith, none_left, sum) in rw (none_left, same, all) refl

module _ {A : Allocator} where
  -- A descriptor of a file object with operations, and the well-formed file that it stands for.
  abbrev pub Streams : ℤ → ℕ → RamfsFile → Fs A → Type 0
  Streams fd f content fs =
      ((n : ℕ) × (file_of fd fs.fd_table ≡ some (n, f)))
      × ((fs.files f).has_ops ≡ true)
      × ((fs.files f).offset < 2 ^ 32)
      × (as_file (fs.ram.objects (fs.files f).private_data) ≡ some content)
      × IsFile content

  -- What a read leaves: only the offset has moved.
  abbrev Moved : ℕ → ℕ → Fs A → Fs A → Type 0
  Moved f o fs fs' =
      (fs'.files f ≡ record (fs.files f) { offset = o })
      × (fs'.fd_table ≡ fs.fd_table)
      × (fs'.ram ≡ fs.ram)

  sys_read-readable :
      (fd : ℤ) (f n : ℕ) (content : RamfsFile) (fs : Fs A)
      → Streams fd f content fs
      → let o = (fs.files f).offset in
        let k = readable content o n in
        (fs' : Fs A) × (sys_read fd n fs ≡ some (some (take k (drop o content.bytes)), fs'))
        × (o + k < 2 ^ 32)
        × ((k ≡ 0) ⊎ (o + k ≤ length content.bytes))
        × Moved f (o + k) fs fs'
  unfolding sys_read IsFile
  sys_read-readable fd f n content fs ((d, open_fd), ops, low, at, (full, within, word)) =
      let o = (fs.files f).offset in
      let k = readable content o n in
      let b = take k (drop o content.bytes) in
      let (read, count) = ramfs_read-readable content o n (full, within, word) in
      let inside : (k ≡ 0) ⊎ (o + k ≤ length content.bytes) = ground (arith, full) in
      let range : o + k < 2 ^ 32 = ground (arith, full, low) in
      elim (Bool-cases (length b == 0)) [
        | inl h ↦
            let none_left : o + k ≡ o = ground (arith, count, h) in
            (
              fs,
              rw (sys_read, open_fd, ops, at, read, h) refl,
              range,
              inside,
              (ap (λ m. record (fs.files f) { offset = m }) (sym none_left), refl, refl),
            )
        | inr h ↦
            let sum : add32 o (length b) ≡ o + k = omega (arith, count, range) in
            (
              advance f (length b) fs,
              rw (sys_read, open_fd, ops, at, read, h) refl,
              range,
              inside,
              (update_self _ f _ ∙ ap (λ m. record (fs.files f) { offset = m }) sum, refl, refl),
            )
      ]

  Streams-Moved :
      (fd : ℤ) (f o : ℕ) (content : RamfsFile) (fs fs' : Fs A)
      → Streams fd f content fs
      → o < 2 ^ 32
      → Moved f o fs fs'
      → Streams fd f content fs'
  Streams-Moved fd f o content fs fs' ((d, open_fd), ops, low, at, well) range (file, table, ram) =
      (
        (d, ap (file_of fd) table ∙ open_fd),
        ap (λ (m : OpenFile). m.has_ops) file ∙ ops,
        omega (arith, ap (λ (m : OpenFile). m.offset) file, range),
        ap (λ (r : Ramfs A). as_file (r.objects (fs'.files f).private_data)) ram
            ∙ ap (λ (m : OpenFile). as_file (fs.ram.objects m.private_data)) file
            ∙ at,
        well,
      )

  -- A descriptor of a well-formed file, and a file object with operations. Two reads, of `n` and of
  -- `m` bytes, return together the bytes that one read of `n + m` returns, and leave the offset
  -- where that leaves it; none of the three fails.
  pub sys_read-sys_read :
      (fd : ℤ) (f n m : ℕ) (content : RamfsFile) (fs : Fs A)
      → Streams fd f content fs
      → (b1 b2 : List ℕ) × (fs1 fs2 fs' : Fs A) × (sys_read fd n fs ≡ some (some b1, fs1))
        × (sys_read fd m fs1 ≡ some (some b2, fs2))
        × (sys_read fd (n + m) fs ≡ some (some (b1 ++ b2), fs'))
        × (fs2.files f ≡ fs'.files f)
  unfolding IsFile
  sys_read-sys_read fd f n m content fs open_file =
      let (fs1, read1, range1, inside1, moved1) = sys_read-readable fd f n content fs open_file in
      let open1 = Streams-Moved fd f _ content fs fs1 open_file range1 moved1 in
      let (fs2, read2, range2, inside2, moved2) = sys_read-readable fd f m content fs1 open1 in
      let (fs', read, range, inside, moved) = sys_read-readable fd f (n + m) content fs open_file in
      let o = (fs.files f).offset in
      let k = readable content o n in
      let o1 : (fs1.files f).offset ≡ o + k = ap (λ (x : OpenFile). x.offset) moved1.0 in
      let j = readable content (o + k) m in
      let total : k + j ≡ readable content o (n + m) = ground arith in
      let parts : take k (drop o content.bytes) ++ take j (drop (o + k) content.bytes)
          ≡ take (readable content o (n + m)) (drop o content.bytes) =
        slice_parts content.bytes o k j _ inside1 total in
      let read2' : sys_read fd m fs1 ≡ some (some (take j (drop (o + k) content.bytes)), fs2) =
        read2
        ∙ ap (λ p. some (some (take (readable content p m) (drop p content.bytes)), fs2)) o1 in
      let sum : o + k + j ≡ o + readable content o (n + m) = omega (arith, total) in
      (
        take k (drop o content.bytes),
        take j (drop (o + k) content.bytes),
        fs1,
        fs2,
        fs',
        read1,
        read2',
        read ∙ ap (λ b. some (some b, fs')) (sym parts),
        moved2.0
            ∙ ap (λ p. record (fs1.files f) { offset = p + readable content p m }) o1
            ∙ ap (λ (x : OpenFile). record x { offset = o + k + j }) moved1.0
            ∙ ap (λ p. record (fs.files f) { offset = p }) sum
            ∙ sym moved.0,
      )
