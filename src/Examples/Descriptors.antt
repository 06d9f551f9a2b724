-- ===== src/Examples/Descriptors.antt =====
-- The calls of src/lib/fs.c on the small file system of the other examples, and an image of it.
use tbs_kernel.Vfs.{Vfs, slash, vfs_lookup}
use tbs_kernel.Base.{
  ℕ, zero, suc, ◌<◌, ◌≡◌, refl, ◌≢◌, inl, true, none, some, List, [], ◌∷◌, ◌++◌, arith, get_or,
  replicate, ◌>>=◌,
}
use tbs_kernel.Examples.Files.{a_name, bump, little_ramfs, little_file, little_file-IsFile}
use tbs_kernel.Ramfs.Image.{ramfs_magic, no_parent, RamfsImage, ramfs_create_root}
use tbs_kernel.Fs.{
  OpenFile, Fs, sys_close, file_of, resolve, sys_read, sys_write, with_counts, sys_open,
}
use tbs_kernel.Base.Int.{pos, ◌-ℤ◌}
use tbs_kernel.Ramfs.{as_file, failure, success, Ramfs, no_object, ramfs_lookup, ramfs_read}
use tbs_kernel.Fs.Streams.{Streams, sys_read-sys_read}
use tbs_kernel.Fs.Paths.{sys_readdir}
use tbs_kernel.Fs.Shared.{sys_write-sys_read}
use tbs_kernel.Fs.Descriptors.{sys_close_read_write_readdir-closed, sys_open-sys_close}
use tbs_kernel.Memory.State.{update}

abbrev little_image : RamfsImage
little_image = record {
  magic = ramfs_magic;
  disk_inodes =
      record {
        type = 2;
        parent = no_parent;
        name = 47 ∷ 0 ∷ [];
        first_child = 1;
        child_count = 1;
        data_offset = 0;
        size = 0;
      }
      ∷ record {
        type = 1;
        parent = 0;
        name = a_name ++ 0 ∷ [];
        first_child = 0;
        child_count = 0;
        data_offset = 0;
        size = 4;
      }
      ∷ [];
  root_inode = 0;
  data_section = 1 ∷ 2 ∷ 3 ∷ 4 ∷ [];
}

abbrev empty_ramfs : Ramfs bump
empty_ramfs = record little_ramfs { heap = 64; objects = λ a. no_object }

-- The image's root has the file, with the four bytes of the data section.
ramfs_create_root-ramfs_read :
    (ramfs_create_root (some little_image) empty_ramfs >>= λ (root, fs).
    ramfs_lookup root (a_name ++ 0 ∷ []) fs >>= λ found. elim found [
      | none ↦ none
      | some i ↦ as_file (fs.objects (fs.inodes i).content) >>= λ file. ramfs_read file 1 9
    ])
    ≡ some (2 ∷ 3 ∷ 4 ∷ [])
unfolding ramfs_create_root ramfs_lookup tbs_kernel.Ramfs.add_entry tbs_kernel.Ramfs.store_name
    tbs_kernel.CString.Copy.strcpy update tbs_kernel.Ramfs.same_text
    tbs_kernel.CString.Search.strcmp tbs_kernel.Ramfs.find_entry as_file ramfs_read
ramfs_create_root-ramfs_read = refl

-- Descriptor 0 stands for the object 600, descriptor 1 for 700; both are at the start of the file.
abbrev open_files : ℕ → OpenFile
open_files f = record {
  has_ops = true;
  inode = 300;
  private_data = 400;
  offset = 0;
  flags = pos 0;
  ref_count = pos 1;
}

abbrev little_fs : Fs bump
little_fs = record {
  ram = little_ramfs;
  files = open_files;
  fd_table = 600 ∷ 700 ∷ replicate 14 0;
  cwd = 100;
  root_inode = 100;
}

sys_close_read_write_readdir-closed_example :
    (sys_close (pos 16) little_fs ≡ some (failure, little_fs))
    × (sys_read (pos 16) 4 little_fs ≡ some (none, little_fs))
    × (sys_write (pos 16) a_name little_fs ≡ some (failure, little_fs))
    × (sys_readdir (pos 16) little_fs ≡ some (none, little_fs))
sys_close_read_write_readdir-closed_example =
    sys_close_read_write_readdir-closed (pos 16) 4 a_name little_fs (inl (omega arith))

little_fs-Streams : Streams (pos 0) 600 little_file little_fs
unfolding file_of as_file
little_fs-Streams = ((0, refl), refl, omega arith, refl, little_file-IsFile)

little_fs-Streams_second : Streams (pos 1) 700 little_file little_fs
unfolding file_of as_file
little_fs-Streams_second = ((1, refl), refl, omega arith, refl, little_file-IsFile)

sys_read-sys_read_example :
    (b1 b2 : List ℕ) × (fs1 fs2 fs' : Fs bump) × (sys_read (pos 0) 1 little_fs
      ≡ some (some b1, fs1))
    × (sys_read (pos 0) 5 fs1 ≡ some (some b2, fs2))
    × (sys_read (pos 0) 6 little_fs ≡ some (some (b1 ++ b2), fs'))
    × (fs2.files 600 ≡ fs'.files 600)
sys_read-sys_read_example =
    sys_read-sys_read (pos 0) 600 1 5 little_file little_fs little_fs-Streams

sys_write-sys_read_example :
    (fs1 fs2 : Fs bump) × (sys_write (pos 0) (7 ∷ 8 ∷ 9 ∷ []) little_fs ≡ some (pos 3, fs1))
    × ((fs1.files 600).offset ≡ 3)
    × (sys_read (pos 1) 3 fs1 ≡ some (some (7 ∷ 8 ∷ 9 ∷ []), fs2))
sys_write-sys_read_example =
    sys_write-sys_read (pos 0) (pos 1) 600 700 (7 ∷ 8 ∷ 9 ∷ []) little_file little_fs
      little_fs-Streams little_fs-Streams_second (ground arith) refl refl (omega arith)
      (omega arith)

abbrev a_path : List ℕ
a_path = slash ∷ a_name ++ 0 ∷ []

abbrev found_fs : Fs bump
found_fs = with_counts (update (λ i. (little_ramfs.inodes i).ref_count) 300 (pos 2)) little_fs

a_path-resolve : resolve a_path little_fs ≡ some (some 300, found_fs)
unfolding resolve vfs_lookup tbs_kernel.Vfs.next_part tbs_kernel.Ramfs.same_text
    tbs_kernel.CString.Search.strcmp tbs_kernel.Ramfs.find_entry tbs_kernel.Vfs.skip_slash update
    tbs_kernel.Vfs.inode_ref
a_path-resolve = refl

two_taken : (k : ℕ) → k < 2 → get_or found_fs.fd_table k 0 ≢ 0
two_taken zero h = ground arith
two_taken (suc zero) h = ground arith
two_taken (suc (suc k)) h = absurd (omega (arith, h))

sys_open-sys_close_example :
    (fs2 fs3 : Fs bump) × (sys_open a_path (pos 0) little_fs ≡ some (pos 2, fs2))
    × (file_of (pos 2) fs2.fd_table ≡ some (2, 1000))
    × ((fs2.files 1000).inode ≡ 300)
    × ((fs2.files 1000).offset ≡ 0)
    × ((fs2.files 1000).private_data ≡ 400)
    × ((fs2.files 1000).has_ops ≡ true)
    × ((k : ℕ) → ◌≢◌ {A = ℕ} 2 k → get_or fs2.fd_table k 0 ≡ get_or found_fs.fd_table k 0)
    × (sys_close (pos 2) fs2 ≡ some (success, fs3))
    × (fs3.fd_table ≡ found_fs.fd_table)
    × ((fs3.ram.inodes 300).ref_count ≡ (found_fs.ram.inodes 300).ref_count -ℤ pos 1)
sys_open-sys_close_example =
    sys_open-sys_close a_path (pos 0) little_fs found_fs 300 2 1000 1024 1024 a_path-resolve
      (ground arith) (omega arith) (omega arith, refl, two_taken) (refl, ground arith) refl
