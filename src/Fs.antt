-- ===== src/Fs.antt =====
-- src/lib/fs.c over src/lib/vfs.c and the RAM file system: the open files of the current process.
-- Objects are found by their address, 0 is the null pointer, and `none` is a fault. A lookup of an
-- inode that would itself fault counts as one that finds nothing.
pub mod Paths
pub mod Descriptors
pub mod Streams
pub mod Shared
use tbs_kernel.Memory.Allocator.{Allocator}
use tbs_kernel.Memory.State.{update}
use tbs_kernel.Base.Words.{add32}
use tbs_kernel.Base.Int.{ℤ, ◌-ℤ◌, pos, negsuc}
use tbs_kernel.Base.{
  ℕ, zero, suc, ◌+◌, ◌-◌, ◌*◌, ◌/◌, ◌%◌, ◌^◌, ◌≤◌, ◌<◌, ◌≡◌, refl, sym, ap, ap₂, ◌∙◌, ◌≢◌, ◌↔◌, ◌⊎◌,
  inl, inr, Bool, true, false, not, ◌&&◌, ◌||◌, Option, none, some, List, [], ◌∷◌, ◌++◌, append-nil,
  append_assoc, arith, dec_lt, ℕ_discrete, ltb, leb, ◌==◌, if◌then◌else◌, ltb→lt, lt→ltb, ==_iff,
  Bool-cases, Option-cases, length, get_elem?, get_or, set, take, drop, replicate, length-append,
  length-set, get_or-set_self, get_or-set_ne, ◌>>=◌, All, All-append,
}
use tbs_kernel.Ramfs.{
  Ramfs, ramfs_lookup, ramfs_kmalloc, failure, put_inode, ramfs_read, ramfs_write, success, as_file,
  put_object, a_file,
}
use tbs_kernel.Vfs.{Vfs, slash, vfs_lookup}

-- `file_t`. Its operations are those of ramfs, which have neither `open` nor `close`; the flag says
-- whether the pointer to them is set.
pub record OpenFile : Type 0 where
  pub has_ops : Bool
  pub inode : ℕ
  pub private_data : ℕ
  pub offset : ℕ
  pub flags : ℤ
  pub ref_count : ℤ

abbrev pub max_fd : ℕ
max_fd = 16

abbrev pub sizeof_open_file : ℕ
sizeof_open_file = 24

-- The file system, and of the current process its descriptors (`max_fd` of them) and its working
-- directory.
pub record Fs (A : Allocator) : Type 0 where
  pub ram : Ramfs A
  pub files : ℕ → OpenFile
  pub fd_table : List ℕ
  pub cwd : ℕ
  pub root_inode : ℕ

abbrev pub pointer : ℕ → Option ℕ
pointer p = if p == 0 then none else some p

-- The first free descriptor, and the table in which it is taken.
unfoldable pub fd_alloc : List ℕ → ℕ → Option (ℕ × List ℕ)
fd_alloc [] file = none
fd_alloc (f ∷ table) file =
    let later = fd_alloc table file >>= λ r. some (suc r.0, f ∷ r.1) in
    if f == 0 then some (0, file ∷ table) else later

-- The range test of a descriptor and the look into the table; `none` is -1.
unfoldable pub file_of : ℤ → List ℕ → Option (ℕ × ℕ)
file_of (negsuc n) table = none
file_of (pos fd) table =
    if leb max_fd fd then none else pointer (get_or table fd 0) >>= λ f. some (fd, f)

module _ {A : Allocator} where
  -- The tables that `vfs_lookup` reads and the counts that it changes.
  abbrev pub vfs_of : Fs A → Vfs
  unfolding ramfs_lookup
  vfs_of fs = record {
    root_inode = pointer fs.root_inode;
    lookup_op = λ i.
        if (fs.ram.inodes i).has_inode_ops
        then some (λ name. ramfs_lookup i (name ++ 0 ∷ []) fs.ram >>= λ found. found)
        else none;
    ref_count = λ i. (fs.ram.inodes i).ref_count;
  }

  abbrev pub with_counts : (ℕ → ℤ) → Fs A → Fs A
  with_counts counts fs = record fs {
    ram = record (fs.ram) { inodes = λ i. record (fs.ram.inodes i) { ref_count = counts i } };
  }

  -- `path[0] == '/' ? vfs_lookup(path, root_inode) : vfs_lookup(path, current_process->cwd)`
  unfoldable pub resolve : List ℕ → Fs A → Option (Option ℕ × Fs A)
  unfolding vfs_of
  resolve [] fs = none
  resolve (c ∷ path) fs = do
    let base = if c == slash then pointer fs.root_inode else pointer fs.cwd
    (found, v) ← vfs_lookup (some (c ∷ path)) base (vfs_of fs)
    some (found, with_counts v.ref_count fs)

  -- `NULL` is 0.
  unfoldable pub file_alloc : Fs A → Option (ℕ × Fs A)
  unfolding ramfs_kmalloc
  file_alloc fs = do
    (f, ram') ← ramfs_kmalloc sizeof_open_file fs.ram
    let zeroed : OpenFile = record {
      has_ops = false;
      inode = 0;
      private_data = 0;
      offset = 0;
      flags = pos 0;
      ref_count = pos 1;
    }
    let fs' = record fs { ram = ram' }
    some (f, if f == 0 then fs' else record fs' { files = update fs.files f zeroed })

  -- `kfree`
  unfoldable pub file_free : ℕ → Fs A → Option (Fs A)
  file_free f fs = do
    heap' ← A.free f fs.ram.heap
    some (record fs { ram = record (fs.ram) { heap = heap' } })

  -- The part of `sys_open` behind the lookup.
  unfoldable pub open_inode : ℕ → ℤ → Fs A → Option (ℤ × Fs A)
  unfolding file_alloc file_free fd_alloc
  open_inode i flags fs = do
    (f, fs1) ← file_alloc fs
    let node = fs1.ram.inodes i
    let file = record (fs1.files f) {
      has_ops = node.has_file_ops;
      inode = i;
      private_data = node.content;
      offset = 0;
      flags = flags;
    }
    let fs2 = record fs1 { files = update fs1.files f file }
    let attach : Option (ℤ × Fs A) = elim (fd_alloc fs2.fd_table f) [
      | none ↦ do fs3 ← file_free f fs2; some (failure, fs3)
      | some (fd, table) ↦ some (pos fd, record fs2 { fd_table = table })
    ]
    if f == 0 then some (failure, fs1) else attach

  unfoldable pub sys_open : List ℕ → ℤ → Fs A → Option (ℤ × Fs A)
  unfolding resolve open_inode
  sys_open path flags fs = do
    (found, fs') ← resolve path fs
    elim found [ none ↦ some (failure, fs') | some i ↦ open_inode i flags fs' ]

  -- `file->inode->ref_count--`
  abbrev pub drop_inode : ℕ → Fs A → Fs A
  unfolding put_inode
  drop_inode i fs =
      let node = fs.ram.inodes i in
      let dropped = record node { ref_count = node.ref_count -ℤ pos 1 } in
      if i == 0 then fs else record fs { ram = put_inode i dropped fs.ram }

  -- The files of the RAM file system have no `close` of their own.
  unfoldable pub sys_close : ℤ → Fs A → Option (ℤ × Fs A)
  unfolding file_of file_free drop_inode
  sys_close fd fs = elim (file_of fd fs.fd_table) [
    | none ↦ some (failure, fs)
    | some (n, f) ↦ do
      fs' ← file_free f (drop_inode (fs.files f).inode fs)
      some (success, record fs' { fd_table = set fs.fd_table n 0 })
  ]

  -- `if (ret > 0) file->offset += ret`
  abbrev pub advance : ℕ → ℕ → Fs A → Fs A
  advance f n fs =
      let file = fs.files f in
      record fs { files = update fs.files f (record file { offset = add32 file.offset n }) }

  -- The bytes read, whose number is returned, or `none` where it is -1. The `int` of the source has
  -- the same value below 2 ^ 31 bytes, here and in `sys_write`.
  unfoldable pub sys_read : ℤ → ℕ → Fs A → Option (Option (List ℕ) × Fs A)
  unfolding file_of ramfs_read as_file
  sys_read fd size fs = elim (file_of fd fs.fd_table) [
    | none ↦ some (none, fs)
    | some (n, f) ↦
        let file = fs.files f in
        let read : Option (Option (List ℕ) × Fs A) = (do
          content ← as_file (fs.ram.objects file.private_data)
          bytes ← ramfs_read content file.offset size
          some (some bytes, if length bytes == 0 then fs else advance f (length bytes) fs)) in
        if file.has_ops then read else some (none, fs)
  ]

  unfoldable pub sys_write : ℤ → List ℕ → Fs A → Option (ℤ × Fs A)
  unfolding file_of ramfs_write as_file put_object
  sys_write fd buf fs = elim (file_of fd fs.fd_table) [
    | none ↦ some (failure, fs)
    | some (n, f) ↦
        let file = fs.files f in
        let write : Option (ℤ × Fs A) = (do
          content ← as_file (fs.ram.objects file.private_data)
          (ret, content') ← ramfs_write content file.offset buf
          let fs' : Fs A = record fs { ram = put_object file.private_data (a_file content') fs.ram }
          some (pos ret, if ret == 0 then fs' else advance f ret fs')) in
        if file.has_ops then write else some (failure, fs)
  ]
