-- ===== src/Examples/Files.antt =====
-- The RAM file system and the descriptors, on an allocator that never takes a block back.
use tbs_kernel.Base.{
  ℕ, ◌+◌, ◌≤◌, ◌≡◌, refl, ◌⊎◌, true, none, some, List, [], ◌∷◌, ◌++◌, arith, ◌==◌, if◌then◌else◌,
}
use tbs_kernel.Ramfs.{
  RamfsFile, Inode, RamfsDir, Ramfs, dir_of, ramfs_lookup, inode_dir, inode_file, ramfs_write,
  ramfs_create, ramfs_mkdir, a_dir, a_file, ramfs_read, success, failure, as_file, is_dir,
  find_entry, empty_file, dot, dot_dot,
}
use tbs_kernel.Ramfs.Files.{IsFile, ramfs_write-ramfs_read}
use tbs_kernel.CString.Copy.Bounds.{IsText}
use tbs_kernel.Ramfs.Directories.{stored, Extends, ramfs_create-ramfs_lookup}
use tbs_kernel.Base.Int.{pos}
use tbs_kernel.Ramfs.Subdirectories.{ramfs_mkdir-ramfs_lookup}
use tbs_kernel.Memory.Allocator.{Allocator}

abbrev pub bump : Allocator
bump = record { State = ℕ; alloc = λ n h. some (h, h + n); free = λ a h. some h }

abbrev pub little_file : RamfsFile
little_file = record { bytes = 1 ∷ 2 ∷ 3 ∷ 4 ∷ []; size = 2; capacity = 4 }

abbrev pub a_name : List ℕ
a_name = b'a' ∷ []

abbrev pub b_name : List ℕ
b_name = b'b' ∷ []

abbrev pub root_inode : Inode
root_inode = record {
  type = inode_dir;
  has_inode_ops = true;
  has_file_ops = true;
  content = 200;
  ref_count = pos 1;
  parent = 0;
}

abbrev pub root_dir : RamfsDir
root_dir = record { name = stored a_name; inode = 300 } ∷ []

abbrev pub little_ramfs : Ramfs bump
little_ramfs = record {
  heap = 1000;
  inodes =
      λ i. if i == 100 then root_inode else record root_inode { type = inode_file; content = 400 };
  objects = λ a. if a == 200 then a_dir root_dir else a_file little_file;
}

pub little_file-IsFile : IsFile little_file
unfolding IsFile
little_file-IsFile = (refl, omega arith, omega arith)

-- The write is cut at the capacity.
ramfs_write-ramfs_read_example :
    (file' : RamfsFile) × (ramfs_write little_file 1 (7 ∷ 8 ∷ 9 ∷ 10 ∷ []) ≡ some (3, file'))
    × IsFile file'
    × (file'.size ≡ 4)
    × (ramfs_read file' 1 3 ≡ some (7 ∷ 8 ∷ 9 ∷ []))
    × ((a n : ℕ)
        → a + n ≤ 2
        → (a + n ≤ 1) ⊎ (4 ≤ a)
        → ramfs_read file' a n ≡ ramfs_read little_file a n)
ramfs_write-ramfs_read_example =
    ramfs_write-ramfs_read little_file 1 (7 ∷ 8 ∷ 9 ∷ 10 ∷ []) little_file-IsFile (omega arith)
      (omega arith)

pub a_name-IsText : IsText a_name
a_name-IsText = (ground arith, _)

pub b_name-IsText : IsText b_name
b_name-IsText = (ground arith, _)

root_dir-there : dir_of 100 little_ramfs ≡ some root_dir
unfolding dir_of
root_dir-there = refl

ramfs_create-ramfs_lookup_example :
    (fs' : Ramfs bump) × (ramfs_create 100 (b_name ++ 0 ∷ []) little_ramfs ≡ some (success, fs'))
    × (as_file (fs'.objects (fs'.inodes 1000).content) ≡ some (empty_file 1040))
    × Extends 100 b_name 1000 little_ramfs fs'
ramfs_create-ramfs_lookup_example =
    ramfs_create-ramfs_lookup 100 b_name [] root_dir little_ramfs 1000 1028 1040 1028 1040 5136 refl
      root_dir-there (omega arith) (b_name-IsText, omega arith) (refl, ground arith)
      (refl, ground arith) (refl, ground arith) (ground arith) (ground arith)

b_name-absent : ramfs_lookup 100 (b_name ++ 0 ∷ []) little_ramfs ≡ some none
unfolding ramfs_lookup tbs_kernel.Ramfs.same_text tbs_kernel.CString.Search.strcmp find_entry
b_name-absent = refl

ramfs_mkdir-ramfs_lookup_example :
    (fs' : Ramfs bump) × (ramfs_mkdir 100 (b_name ++ 0 ∷ []) little_ramfs ≡ some (success, fs'))
    × (is_dir (fs'.inodes 1000).type ≡ true)
    × (ramfs_lookup 1000 dot fs' ≡ some (some 1000))
    × (ramfs_lookup 1000 dot_dot fs' ≡ some (some 100))
    × Extends 100 b_name 1000 little_ramfs fs'
ramfs_mkdir-ramfs_lookup_example =
    ramfs_mkdir-ramfs_lookup 100 b_name [] root_dir little_ramfs 1000 1028 1028 2184 refl
      root_dir-there (omega arith) (b_name-IsText, omega arith) b_name-absent (refl, ground arith)
      (refl, ground arith) (ground arith, ground arith, ground arith)
