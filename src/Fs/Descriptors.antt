-- ===== src/Fs/Descriptors.antt =====
-- The descriptors of src/lib/fs.c: `sys_open` takes one, `sys_close` gives it back, and the four
-- calls on a descriptor that is not open.
use tbs_kernel.Base.Int.{negsuc, ℤ, pos, ◌-ℤ◌}
use tbs_kernel.Memory.Allocator.{Allocator}
use tbs_kernel.Base.{
  ℕ, zero, suc, ◌≤◌, ◌<◌, ◌≡◌, refl, sym, ap, ◌∙◌, ◌≢◌, ◌⊎◌, inl, inr, true, false, none, some,
  List, [], ◌∷◌, arith, leb, ◌==◌, Bool-cases, length, get_or, set, get_or-set_self, get_or-set_ne,
}
use tbs_kernel.Fs.{
  file_of, sys_close, fd_alloc, sys_open, max_fd, sys_read, open_inode, sys_write, drop_inode, Fs,
  file_alloc, file_free, resolve, sizeof_open_file, OpenFile,
}
use tbs_kernel.Fs.Paths.{sys_readdir}
use tbs_kernel.Ramfs.{put_inode, failure, ramfs_kmalloc, success, Inode}
use tbs_kernel.Memory.State.{update}
use tbs_kernel.Ramfs.Directories.{update_self, Allocates}

-- A descriptor that the table does not have, or whose entry is the null pointer.
abbrev pub IsClosed : ℤ → List ℕ → Type 0
IsClosed (negsuc n) table = Unit {0}
IsClosed (pos fd) table = (max_fd ≤ fd) ⊎ (get_or table fd 0 ≡ 0)

file_of-closed : (fd : ℤ) (table : List ℕ) → IsClosed fd table → file_of fd table ≡ none
unfolding file_of
file_of-closed (negsuc n) table h = refl
file_of-closed (pos fd) table (inl h) = let out : leb 16 fd ≡ true = ground arith in rw out refl
file_of-closed (pos fd) table (inr h) = elim (Bool-cases (leb 16 fd)) [
  | inl k ↦ rw k refl
  | inr k ↦ rw (k, h) refl
]

file_of-open :
    (fd : ℕ) (table : List ℕ)
    → fd < max_fd
    → get_or table fd 0 ≢ 0
    → file_of (pos fd) table ≡ some (fd, get_or table fd 0)
unfolding file_of
file_of-open fd table low used =
    let inside : leb 16 fd ≡ false = ground arith in
    let set : (get_or table fd 0 == 0) ≡ false = ground (arith, used) in rw (inside, set) refl

module _ {A : Allocator} where
  -- A number that is no open descriptor, negative, from 16 on, or with a null pointer in the table:
  -- `sys_close`, `sys_read`, `sys_write` and `sys_readdir` return -1 and change nothing.
  pub sys_close_read_write_readdir-closed :
      (fd : ℤ) (size : ℕ) (buf : List ℕ) (fs : Fs A)
      → IsClosed fd fs.fd_table
      → (sys_close fd fs ≡ some (failure, fs))
        × (sys_read fd size fs ≡ some (none, fs))
        × (sys_write fd buf fs ≡ some (failure, fs))
        × (sys_readdir fd fs ≡ some (none, fs))
  unfolding sys_close sys_read sys_write sys_readdir
  sys_close_read_write_readdir-closed fd size buf fs closed =
      let e = file_of-closed fd fs.fd_table closed in
      (
        rw (sys_close, e) refl,
        rw (sys_read, e) refl,
        rw (sys_write, e) refl,
        rw (sys_readdir, e) refl,
      )

-- All entries before `fd` are taken, and this one is free.
abbrev pub IsFirstFree : ℕ → List ℕ → Type 0
IsFirstFree fd table =
    (fd < length table) × (get_or table fd 0 ≡ 0) × ((k : ℕ) → k < fd → get_or table k 0 ≢ 0)

fd_alloc-first :
    (fd : ℕ) (table : List ℕ) (f : ℕ)
    → IsFirstFree fd table
    → fd_alloc table f ≡ some (fd, set table fd f)
unfolding fd_alloc
fd_alloc-first zero [] f (low, free, taken) = absurd (omega (arith, low))
fd_alloc-first (suc fd) [] f (low, free, taken) = absurd (omega (arith, low))
fd_alloc-first zero (x ∷ table) f (low, free, taken) = rw free refl
fd_alloc-first (suc fd) (x ∷ table) f (low, free, taken) =
    let not_null : (x == 0) ≡ false = ground (arith, taken 0 (omega arith)) in
    let rest =
      fd_alloc-first fd table f (omega (arith, low), free, λ k h. taken (suc k) (omega arith)) in
    rw (not_null, rest) refl

set-set_zero :
    (table : List ℕ) (fd f : ℕ) → get_or table fd 0 ≡ 0 → set (set table fd f) fd 0 ≡ table
set-set_zero [] fd f h = refl
set-set_zero (x ∷ table) zero f h = rw h refl
set-set_zero (x ∷ table) (suc fd) f h = ap (◌∷◌ x) (set-set_zero table fd f h)

module _ {A : Allocator} where
  -- A path that leads to an inode, an allocator that gives a block for the file object, and a first
  -- free descriptor below 16. `sys_open` returns it; it stands for a file object at offset 0 with
  -- the inode, its content and its operations, and the other descriptors are as they were. If the
  -- block can be freed, `sys_close` of it returns 0, the table of descriptors is what it was before
  -- both calls, and of the references that the lookup took one to the inode is given back.
  pub sys_open-sys_close :
      (path : List ℕ) (flags : ℤ) (fs fs1 : Fs A) (i fd f : ℕ) (h h' : A.State)
      → resolve path fs ≡ some (some i, fs1)
      → i ≢ 0
      → fd < max_fd
      → IsFirstFree fd fs1.fd_table
      → Allocates A sizeof_open_file fs1.ram.heap f h
      → A.free f h ≡ some h'
      → (fs2 fs3 : Fs A) × (sys_open path flags fs ≡ some (pos fd, fs2))
        × (file_of (pos fd) fs2.fd_table ≡ some (fd, f))
        × ((fs2.files f).inode ≡ i)
        × ((fs2.files f).offset ≡ 0)
        × ((fs2.files f).private_data ≡ (fs1.ram.inodes i).content)
        × ((fs2.files f).has_ops ≡ (fs1.ram.inodes i).has_file_ops)
        × ((k : ℕ) → fd ≢ k → get_or fs2.fd_table k 0 ≡ get_or fs1.fd_table k 0)
        × (sys_close (pos fd) fs2 ≡ some (success, fs3))
        × (fs3.fd_table ≡ fs1.fd_table)
        × ((fs3.ram.inodes i).ref_count ≡ (fs1.ram.inodes i).ref_count -ℤ pos 1)
  unfolding sys_open open_inode sys_close drop_inode put_inode file_alloc file_free ramfs_kmalloc
  sys_open-sys_close path flags fs fs1 i fd f h h' found i0 low first (a, n) freed =
      let f0 : (f == 0) ≡ false = ground (arith, n) in
      let i_set : (i == 0) ≡ false = ground (arith, i0) in
      let node = fs1.ram.inodes i in
      let empty : OpenFile = record {
        has_ops = false;
        inode = 0;
        private_data = 0;
        offset = 0;
        flags = pos 0;
        ref_count = pos 1;
      } in
      let file : OpenFile = record {
        has_ops = node.has_file_ops;
        inode = i;
        private_data = node.content;
        offset = 0;
        flags = flags;
        ref_count = pos 1;
      } in
      let table = set fs1.fd_table fd f in
      let fs2 : Fs A = record fs1 {
        ram = record (fs1.ram) { heap = h };
        files = update (update fs1.files f empty) f file;
        fd_table = table;
      } in
      let dropped : Inode = record node { ref_count = node.ref_count -ℤ pos 1 } in
      let fs3 : Fs A = record fs2 {
        ram = record (fs1.ram) { heap = h'; inodes = update fs1.ram.inodes i dropped };
        fd_table = set table fd 0;
      } in
      let alloc = fd_alloc-first fd fs1.fd_table f first in
      let there = get_or-set_self fs1.fd_table fd f 0 first.0 in
      let looked : file_of (pos fd) table ≡ some (fd, f) =
        file_of-open fd table low (λ z. n (sym there ∙ z)) ∙ ap (λ k. some (fd, k)) there in
      let back = update_self fs1.files f empty in
      let mine : fs2.files f ≡ file = update_self _ f _ in
      (
        fs2,
        fs3,
        rw (sys_open, found, a, f0, alloc, f0, back) refl,
        looked,
        ap (λ (o : OpenFile). o.inode) mine,
        ap (λ (o : OpenFile). o.offset) mine,
        ap (λ (o : OpenFile). o.private_data) mine,
        ap (λ (o : OpenFile). o.has_ops) mine,
        λ k other. get_or-set_ne fs1.fd_table f 0 other,
        rw (sys_close, looked, mine, i_set, freed) refl,
        set-set_zero fs1.fd_table fd f first.1,
        ap (λ (m : Inode). m.ref_count) (update_self fs1.ram.inodes i dropped),
      )
