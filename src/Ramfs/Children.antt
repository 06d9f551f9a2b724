-- ===== src/Ramfs/Children.antt =====
-- The directories that `ramfs_create_root` of src/kernel/drivers/ramfs.c fills from an image.
use tbs_kernel.Base.{
  ℕ, zero, suc, ◌+◌, ◌^◌, ◌≤◌, ◌<◌, ◌≡◌, refl, false, some, List, [], ◌∷◌, ◌++◌, append-nil,
  append_assoc, arith, leb, length, get_elem?, get_or, length-append,
}
use tbs_kernel.Ramfs.Image.{RamfsImage, add_children, DiskInode}
use tbs_kernel.Ramfs.{RamfsDir, ramfs_max_entries, Entry, name_field}
use tbs_kernel.Ramfs.Directories.{stored, add_entry-room}
use tbs_kernel.CString.Copy.Bounds.{IsText}
use tbs_kernel.Base.Words.{add32}

-- The names of the disk inodes: each a text of at most 31 bytes with its terminator.
abbrev pub HasNames : RamfsImage → (ℕ → List ℕ) → Type 0
HasNames image texts =
    (k : ℕ)
    → k < length image.disk_inodes
    → (disk : DiskInode) × (pad : List ℕ) × (get_elem? image.disk_inodes k ≡ some disk)
      × (disk.name ≡ texts k ++ 0 ∷ pad)
      × IsText (texts k)
      × (length (texts k) < name_field)

-- An entry per child, in the order of the table.
abbrev pub child_entries : (ℕ → List ℕ) → List ℕ → ℕ → ℕ → RamfsDir
child_entries texts inodes zero child = []
child_entries texts inodes (suc count) child =
    record { name = stored (texts child); inode = get_or inodes child 0 }
    ∷ child_entries texts inodes count (child + 1)

-- The children of a directory of the image stand in the table, whose names are texts of at most 31
-- bytes, and their number and that of the entries before them add up to at most 32: the loop
-- appends one entry per child, in the order of the table, with its name and its inode.
pub add_children-child_entries :
    (image : RamfsImage) (texts : ℕ → List ℕ) (inodes : List ℕ) (count child : ℕ) (d : RamfsDir)
    → HasNames image texts
    → child + count ≤ length image.disk_inodes
    → length image.disk_inodes < 2 ^ 32
    → length d + count ≤ ramfs_max_entries
    → add_children image inodes count child d
      ≡ some (some (d ++ child_entries texts inodes count child))
unfolding add_children
add_children-child_entries image texts inodes zero child d names range word room =
    rw (append-nil d) refl
add_children-child_entries image texts inodes (suc count) child d names range word room =
    let (disk, pad, at, name, text, short) = names child (omega arith) in
    let known : leb (length image.disk_inodes) child ≡ false = ground arith in
    let next : add32 child 1 ≡ child + 1 = omega arith in
    let e : Entry = record { name = stored (texts child); inode = get_or inodes child 0 } in
    let longer : length (d ++ e ∷ []) + count ≤ 32 =
      omega (arith, length-append d (e ∷ []), room) in
    let rest =
      add_children-child_entries image texts inodes count (child + 1) (d ++ e ∷ []) names
        (omega arith) word longer in
    let put = add_entry-room d (texts child) pad (get_or inodes child 0) (omega arith) text short in
    rw (known, at, name, put, next, rest)
      (rw (append_assoc d (e ∷ []) (child_entries texts inodes count (child + 1))) refl)
