-- ===== src/Ramfs/Image.antt =====
-- `ramfs_create_root` of src/kernel/drivers/ramfs.c: the file system of an image
-- (include/kernel/drivers/ramfs_image.h), decoded into records here; its prints on the serial port
-- are left out. `none` is a fault.
use tbs_kernel.Base.{
  ℕ, zero, suc, ◌-◌, ◌*◌, ◌%◌, ◌^◌, Bool, true, false, not, ◌||◌, Option, none, some, List, [], ◌∷◌,
  ltb, leb, ◌==◌, if◌then◌else◌, length, get_elem?, get_or, take, drop, ◌>>=◌,
}
use tbs_kernel.Ramfs.{
  InodeType, RamfsFile, RamfsDir, ramfs_alloc_inode, put_inode, ramfs_kmalloc, Ramfs, inode_dir,
  add_entry, put_object, inode_file, dot, sizeof_dir, dot_dot, Inode, ramfs_max_entries, a_dir,
  sizeof_file, a_file,
}
use tbs_kernel.Base.Words.{add32}
use tbs_kernel.Memory.Allocator.{Allocator}

abbrev pub ramfs_magic : ℕ
ramfs_magic = 1380009555

abbrev pub no_parent : ℕ
no_parent = 2 ^ 32 - 1

abbrev pub ramfs_inode_dir : ℕ
ramfs_inode_dir = 2

-- `ramfs_disk_inode_t`
pub record DiskInode : Type 0 where
  pub type : ℕ
  pub parent : ℕ
  pub name : List ℕ
  pub first_child : ℕ
  pub child_count : ℕ
  pub data_offset : ℕ
  pub size : ℕ

-- `ramfs_header_t`, the inode table behind it with `inode_count` entries, and what follows.
pub record RamfsImage : Type 0 where
  pub magic : ℕ
  pub disk_inodes : List DiskInode
  pub root_inode : ℕ
  pub data_section : List ℕ

abbrev pub disk_type : DiskInode → InodeType
disk_type disk = if disk.type == ramfs_inode_dir then inode_dir else inode_file

-- The part of a file's block that the image holds.
abbrev pub image_file : RamfsImage → DiskInode → RamfsFile
image_file image disk = record {
  bytes = take disk.size (drop disk.data_offset image.data_section);
  size = disk.size;
  capacity = disk.size;
}

-- The entries of the children, those from `child` on. The name goes into a zeroed entry of 32 bytes;
-- the inner `none` is a child that the table does not have.
unfoldable pub add_children : RamfsImage → List ℕ → ℕ → ℕ → RamfsDir → Option (Option RamfsDir)
add_children image inodes zero child d = some (some d)
add_children image inodes (suc count) child d =
    let next : Option (Option RamfsDir) = (do
      disk ← get_elem? image.disk_inodes child
      d' ← add_entry d disk.name (get_or inodes child 0)
      add_children image inodes count (add32 child 1) d') in
    if leb (length image.disk_inodes) child then some none else next

-- The entries of itself and its parent, where there is room for them.
unfoldable pub add_dots : RamfsDir → ℕ → ℕ → Option RamfsDir
add_dots d i up =
    let both = (do d' ← add_entry d dot i; add_entry d' dot_dot up) in
    if ltb (length d) (ramfs_max_entries - 2) then both else some d

module _ {A : Allocator} where
  unfoldable pub create_empty_root : Ramfs A → Option (ℕ × Ramfs A)
  unfolding ramfs_alloc_inode ramfs_kmalloc put_inode put_object
  create_empty_root fs = do
    (i, fs1) ← ramfs_alloc_inode inode_dir fs
    (c, fs2) ← ramfs_kmalloc sizeof_dir fs1
    let root : Inode = record (fs2.inodes i) { content = c }
    let made = put_inode i root (put_object c (a_dir []) fs2)
    if i == 0 || c == 0 then none else some (i, made)

  -- The addresses of the new inodes; the inner `none` is an allocation that failed.
  unfoldable pub alloc_inodes : List DiskInode → Ramfs A → Option (Option (List ℕ) × Ramfs A)
  unfolding ramfs_alloc_inode
  alloc_inodes [] fs = some (some [], fs)
  alloc_inodes (disk ∷ disks) fs = do
    (i, fs1) ← ramfs_alloc_inode (disk_type disk) fs
    let more : Option (Option (List ℕ) × Ramfs A) = do
      (rest, fs2) ← alloc_inodes disks fs1
      some (elim rest [ none ↦ none | some is ↦ some (i ∷ is) ], fs2)
    if i == 0 then some (none, fs1) else more

  -- The loop that sets the parents, over the inodes and their disk inodes.
  unfoldable pub set_parents : List ℕ → List DiskInode → List ℕ → Ramfs A → Option (Ramfs A)
  unfolding put_inode
  set_parents inodes [] is fs = some fs
  set_parents inodes (disk ∷ disks) [] fs = none
  set_parents inodes (disk ∷ disks) (i ∷ is) fs = do
    parent ← if disk.parent == no_parent then some 0 else get_elem? inodes disk.parent
    set_parents inodes disks is (put_inode i (record (fs.inodes i) { parent = parent }) fs)

  -- The content of one inode; `false` is the branch that gives up.
  unfoldable pub set_content :
      RamfsImage → List ℕ → DiskInode → ℕ → Ramfs A → Option (Bool × Ramfs A)
  unfolding ramfs_kmalloc put_inode put_object add_children add_dots
  set_content image inodes disk i fs =
      let up = if (fs.inodes i).parent == 0 then i else (fs.inodes i).parent in
      let load_dir : Option (Bool × Ramfs A) = (do
        (c, fs') ← ramfs_kmalloc sizeof_dir fs
        let fill : Option (Bool × Ramfs A) = do
          children ← add_children image inodes disk.child_count disk.first_child []
          elim children [
            | none ↦ some (false, fs')
            | some d ↦ do
              d' ← add_dots d i up
              let node : Inode = record (fs'.inodes i) { content = c }
              some (true, put_inode i node (put_object c (a_dir d') fs'))
          ]
        if c == 0 then some (false, fs') else fill) in
      let load_file : Option (Bool × Ramfs A) = (do
        (c, fs') ← ramfs_kmalloc sizeof_file fs
        let node : Inode = record (fs'.inodes i) { content = c }
        let made = put_inode i node (put_object c (a_file (image_file image disk)) fs')
        some (not (c == 0), if c == 0 then fs' else made)) in
      if disk.type == ramfs_inode_dir then load_dir else load_file

  unfoldable pub set_contents :
      RamfsImage → List ℕ → List DiskInode → List ℕ → Ramfs A → Option (Bool × Ramfs A)
  unfolding set_content
  set_contents image inodes [] is fs = some (true, fs)
  set_contents image inodes (disk ∷ disks) [] fs = none
  set_contents image inodes (disk ∷ disks) (i ∷ is) fs = do
    (good, fs') ← set_content image inodes disk i fs
    let more = set_contents image inodes disks is fs'
    if good then more else some (false, fs')

  -- The part of `ramfs_create_root` behind the array of inodes.
  load_inodes : RamfsImage → ℕ → Ramfs A → Option (ℕ × Ramfs A)
  unfolding create_empty_root alloc_inodes set_parents set_contents
  load_inodes image array fs = do
    (created, fs1) ← alloc_inodes image.disk_inodes fs
    elim created [
      | none ↦ create_empty_root fs1
      | some inodes ↦ do
        fs2 ← set_parents inodes image.disk_inodes inodes fs1
        (good, fs3) ← set_contents image inodes image.disk_inodes inodes fs2
        let finish : Option (ℕ × Ramfs A) = do
          heap' ← A.free array fs3.heap
          root ← get_elem? inodes image.root_inode
          some (root, record fs3 { heap = heap' })
        if good then finish else create_empty_root fs3
    ]

  -- `none` is a null image or one of size 0.
  unfoldable pub ramfs_create_root : Option RamfsImage → Ramfs A → Option (ℕ × Ramfs A)
  unfolding create_empty_root load_inodes
  ramfs_create_root none fs = create_empty_root fs
  ramfs_create_root (some image) fs =
      let count = length image.disk_inodes in
      let load : Option (ℕ × Ramfs A) = (do
        (array, fs') ← ramfs_kmalloc ((4 * count) % 2 ^ 32) fs
        if array == 0 then create_empty_root fs' else load_inodes image array fs') in
      if not (image.magic == ramfs_magic) || count == 0 then create_empty_root fs else load
