-- ===== src/Fs/Paths.antt =====
-- The operations of src/lib/fs.c on paths: `sys_create`, `sys_mkdir`, `sys_chdir`, `sys_readdir`
-- and `build_path`.
use tbs_kernel.Memory.Allocator.{Allocator}
use tbs_kernel.CString.Copy.{strcpy}
use tbs_kernel.CString.Search.{strrchr}
use tbs_kernel.Vfs.{slash, vfs_lookup_parent, vfs_path_last}
use tbs_kernel.Base.{
  ℕ, zero, suc, ◌+◌, Bool, not, ◌||◌, Option, none, some, List, [], ◌∷◌, ◌++◌, leb, ◌==◌,
  if◌then◌else◌, length, get_or, take, drop, replicate, ◌>>=◌,
}
use tbs_kernel.Ramfs.{
  ramfs_readdir, dir_of, Ramfs, ramfs_lookup, ramfs_create, name_field, ramfs_mkdir, failure,
  InodeType, is_dir, success,
}
use tbs_kernel.Fs.{vfs_of, Fs, sys_open, resolve, file_of, with_counts, advance}
use tbs_kernel.Base.Int.{ℤ, pos, negsuc}

-- The part of a text before its terminator.
unfoldable pub text_of : List ℕ → List ℕ
text_of [] = []
text_of (c ∷ s) = if c == 0 then [] else c ∷ text_of s

-- `build_path` writes the names from the root down, each behind a slash.
unfoldable pub join_parts : List (List ℕ) → List ℕ
join_parts [] = []
join_parts (part ∷ parts) = join_parts parts ++ (slash ∷ text_of part)

module _ {A : Allocator} where
  -- The loop of `find_name_in_parent` from index `i` on, over `left` more entries.
  unfoldable pub find_name_from : ℕ → ℕ → ℕ → ℕ → Ramfs A → Option (Option (List ℕ))
  unfolding ramfs_readdir ramfs_lookup
  find_name_from zero parent child i fs = some none
  find_name_from (suc left) parent child i fs =
      let more = find_name_from left parent child (i + 1) fs in
      ramfs_readdir parent i fs >>= λ r. elim r [
        | none ↦ some none
        | some ent ↦ do
          n ← ramfs_lookup parent ent.0 fs
          let same : Bool = elim n [ none ↦ child == 0 | some k ↦ k == child ]
          if same then some (some ent.0) else more
      ]

  -- The loop ends where `readdir` has no more entries.
  unfoldable pub find_name_in_parent : ℕ → ℕ → Ramfs A → Option (Option (List ℕ))
  unfolding find_name_from dir_of
  find_name_in_parent parent child fs = do
    d ← dir_of parent fs
    find_name_from (suc (length d)) parent child 0 fs

  -- The names from the working directory up to the root; `parts` has room for `room` more of them.
  unfoldable pub climb : ℕ → ℕ → Ramfs A → Option (List (List ℕ))
  unfolding find_name_in_parent
  climb zero cur fs =
      let up = (fs.inodes cur).parent in
      let overflow : Option (List (List ℕ)) =
        (find_name_in_parent up cur fs >>= λ found. elim found [
          | none ↦ some []
          | some name ↦ none
        ]) in
      if up == 0 || up == cur then some [] else overflow
  climb (suc room) cur fs =
      let up = (fs.inodes cur).parent in
      let more = climb room up fs in
      let go : Option (List (List ℕ)) =
        (find_name_in_parent up cur fs >>= λ found. elim found [
          | none ↦ some []
          | some name ↦ more >>= λ parts. some (name ∷ parts)
        ]) in
      if up == 0 || up == cur then some [] else go

  -- The bytes that it writes to `buf`.
  unfoldable pub build_path : ℕ → Ramfs A → Option (List ℕ)
  unfolding climb join_parts
  build_path cwd fs = do
    parts ← climb 32 cwd fs
    some (if length parts == 0 then slash ∷ 0 ∷ [] else join_parts parts ++ 0 ∷ [])

  unfoldable pub sys_create : List ℕ → Fs A → Option (ℤ × Fs A)
  unfolding vfs_of ramfs_create
  sys_create path fs = do
    (found, v) ← vfs_lookup_parent (some path) (vfs_of fs)
    let fs' = with_counts v.ref_count fs
    elim found [
      | none ↦ some (failure, fs')
      | some dir ↦ do
        last ← vfs_path_last path
        let create : Option (ℤ × Fs A) =
            (ramfs_create dir (drop last path) fs'.ram >>= λ r.
            some (r.0, record fs' { ram = r.1 }))
        if (fs'.ram.inodes dir).has_inode_ops then create else some (failure, fs')
    ]

  -- The directory part and the name of a path, in the arrays `parent_path` and `dir_name`.
  unfoldable pub split_path : List ℕ → Fs A → Option (List ℕ × List ℕ)
  unfolding build_path
  split_path path fs = strrchr path slash >>= λ last_slash. elim last_slash [
    | none ↦ do
      dir_name ← strcpy (replicate name_field 0) path
      buff ← build_path fs.cwd fs.ram
      if leb (length buff) 32 then some (buff, dir_name) else none
    | some len ↦ do
      dir_name ← strcpy (replicate name_field 0) (drop (len + 1) path)
      let parent_path = if len == 0 then slash ∷ 0 ∷ [] else take len path ++ 0 ∷ []
      if leb (length parent_path) 256 then some (parent_path, dir_name) else none
  ]

  -- The descriptor stays open.
  unfoldable pub sys_mkdir : List ℕ → Fs A → Option (ℤ × Fs A)
  unfolding split_path sys_open ramfs_mkdir
  sys_mkdir path fs = do
    (parent_path, dir_name) ← split_path path fs
    (fd, fs') ← sys_open parent_path (pos 0) fs
    elim fd [
      | negsuc n ↦ some (failure, fs')
      | pos n ↦
          let parent = (fs'.files (get_or fs'.fd_table n 0)).inode in
          let node = fs'.ram.inodes parent in
          let make : Option (ℤ × Fs A) = (do
            (res, ram') ← ramfs_mkdir parent dir_name fs'.ram
            if node.has_inode_ops then some (res, record fs' { ram = ram' }) else none) in
          if parent == 0 || not (is_dir node.type) then some (failure, fs') else make
    ]

  unfoldable pub sys_chdir : List ℕ → Fs A → Option (ℤ × Fs A)
  unfolding resolve
  sys_chdir path fs = do
    (found, fs') ← resolve path fs
    elim found [
      | none ↦ some (failure, fs')
      | some newdir ↦
          let kind = (fs'.ram.inodes newdir).type in
          some (if is_dir kind then (success, record fs' { cwd = newdir }) else (failure, fs'))
    ]

  -- What is written to `out` is the inner option; without it the result is -1.
  unfoldable pub sys_readdir : ℤ → Fs A → Option (Option (List ℕ × InodeType) × Fs A)
  unfolding file_of ramfs_readdir
  sys_readdir fd fs = elim (file_of fd fs.fd_table) [
    | none ↦ some (none, fs)
    | some (n, f) ↦
        let file = fs.files f in
        let node = fs.ram.inodes file.inode in
        let next : Option (Option (List ℕ × InodeType) × Fs A) = (do
          res ← ramfs_readdir file.inode file.offset fs.ram
          some (elim res [ none ↦ (none, fs) | some ent ↦ (some ent, advance f 1 fs) ])) in
        let listed = if node.has_inode_ops then next else none in
        if is_dir node.type then listed else some (none, fs)
  ]
