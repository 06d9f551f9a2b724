-- ===== src/Fs/Shared.antt =====
-- `sys_write` and `sys_read` of src/lib/fs.c through two file objects of the same file.
use tbs_kernel.Base.{
  ℕ, ◌+◌, ◌^◌, ◌≤◌, ◌<◌, ◌≡◌, refl, ap, ◌∙◌, ◌≢◌, inl, inr, true, some, List, arith, ◌==◌,
  if◌then◌else◌, Bool-cases, length, take,
}
use tbs_kernel.Ramfs.{RamfsFile, put_object, a_file, as_file, ramfs_write, Ramfs}
use tbs_kernel.Fs.{sys_write, sys_read, Fs, advance, file_of, OpenFile}
use tbs_kernel.Base.Int.{ℤ, pos}
use tbs_kernel.Fs.Streams.{Streams}
use tbs_kernel.Ramfs.Files.{fitting, ramfs_write-ramfs_read}
use tbs_kernel.Base.Words.{add32}
use tbs_kernel.Ramfs.Directories.{update_self, update_other}
use tbs_kernel.Memory.Allocator.{Allocator}

module _ {A : Allocator} where
  -- What a write of `n` bytes to the file object `f` leaves.
  abbrev Written : ℕ → ℕ → RamfsFile → Fs A → Fs A → Type 0
  Written f n content' fs fs' =
      (fs'.files f ≡ record (fs.files f) { offset = (fs.files f).offset + n })
      × ((g : ℕ) → f ≢ g → fs'.files g ≡ fs.files g)
      × (fs'.fd_table ≡ fs.fd_table)
      × (fs'.ram ≡ put_object (fs.files f).private_data (a_file content') fs.ram)

  sys_write-Written :
      (fd : ℤ) (f n : ℕ) (s : List ℕ) (content content' : RamfsFile) (fs : Fs A)
      → Streams fd f content fs
      → (fs.files f).offset + n < 2 ^ 32
      → ramfs_write content (fs.files f).offset s ≡ some (n, content')
      → (fs' : Fs A) × (sys_write fd s fs ≡ some (pos n, fs')) × Written f n content' fs fs'
  unfolding sys_write
  sys_write-Written fd f n s content content' fs ((d, open_fd), ops, low, at, well) range wrote =
      let o = (fs.files f).offset in
      let fs1 : Fs A = record fs {
        ram = put_object (fs.files f).private_data (a_file content') fs.ram;
      } in
      elim (Bool-cases (n == 0)) [
        | inl h ↦
            let still : o ≡ o + n = ground (arith, h) in
            (
              fs1,
              rw (sys_write, open_fd, ops, at, wrote, h) refl,
              (ap (λ m. record (fs.files f) { offset = m }) still, λ g other. refl, refl, refl),
            )
        | inr h ↦
            let sum : add32 o n ≡ o + n = omega (arith, range) in
            (
              advance f n fs1,
              rw (sys_write, open_fd, ops, at, wrote, h) refl,
              (
                update_self _ f _ ∙ ap (λ m. record (fs.files f) { offset = m }) sum,
                λ g other. update_other _ _ other,
                refl,
                refl,
              ),
            )
      ]

  -- Two descriptors with different file objects of the same well-formed file, at the same offset
  -- within its capacity. `sys_write` through the first returns the number of bytes that fit and
  -- moves its offset by it; a `sys_read` of as many through the second then returns those bytes.
  pub sys_write-sys_read :
      (fd1 fd2 : ℤ) (f1 f2 : ℕ) (s : List ℕ) (content : RamfsFile) (fs : Fs A)
      → Streams fd1 f1 content fs
      → Streams fd2 f2 content fs
      → f1 ≢ f2
      → (fs.files f2).private_data ≡ (fs.files f1).private_data
      → (fs.files f2).offset ≡ (fs.files f1).offset
      → (fs.files f1).offset ≤ content.capacity
      → (fs.files f1).offset + length s < 2 ^ 32
      → let n = fitting content (fs.files f1).offset s in
        (fs1 fs2 : Fs A) × (sys_write fd1 s fs ≡ some (pos n, fs1))
        × ((fs1.files f1).offset ≡ (fs.files f1).offset + n)
        × (sys_read fd2 n fs1 ≡ some (some (take n s), fs2))
  unfolding sys_read put_object as_file
  sys_write-sys_read fd1 fd2 f1 f2 s content fs first second apart same_file same_offset fits word =
      let ((d1, open1), ops1, low1, at1, well) = first in
      let ((d2, open2), ops2, low2, at2, well2) = second in
      let o = (fs.files f1).offset in
      let n = fitting content o s in
      let (content', wrote, well', size', read, others) =
        ramfs_write-ramfs_read content o s well fits word in
      let range : o + n < 2 ^ 32 = ground (arith, word) in
      let (fs1, done, written) =
        sys_write-Written fd1 f1 n s content content' fs first range wrote in
      let (mine, other, table, ram) = written in
      let object2 : fs1.files f2 ≡ fs.files f2 = other f2 apart in
      let open2' : file_of fd2 fs1.fd_table ≡ some (d2, f2) = ap (file_of fd2) table ∙ open2 in
      let ops2' : (fs1.files f2).has_ops ≡ true = ap (λ (x : OpenFile). x.has_ops) object2 ∙ ops2 in
      let data2 : (fs1.files f2).private_data ≡ (fs.files f1).private_data =
        ap (λ (x : OpenFile). x.private_data) object2 ∙ same_file in
      let offset2 : (fs1.files f2).offset ≡ o =
        ap (λ (x : OpenFile). x.offset) object2 ∙ same_offset in
      let at2' : as_file (fs1.ram.objects (fs1.files f2).private_data) ≡ some content' =
        ap (λ p. as_file (fs1.ram.objects p)) data2
        ∙ ap (λ (r : Ramfs A). as_file (r.objects (fs.files f1).private_data)) ram
        ∙ ap as_file (update_self _ (fs.files f1).private_data _) in
      (
        fs1,
        if length (take n s) == 0 then fs1 else advance f2 (length (take n s)) fs1,
        done,
        ap (λ (x : OpenFile). x.offset) mine,
        rw (sys_read, open2', ops2', at2', offset2, read) refl,
      )
