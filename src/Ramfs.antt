-- ===== src/Ramfs.antt =====
-- src/kernel/drivers/ramfs.c: inodes, directories and files in memory. Objects are found by their
-- address; `none` is a fault: a null pointer that is followed, or an access past an array.
pub mod Files
pub mod Directories
pub mod Subdirectories
pub mod Image
pub mod Children
use tbs_kernel.CString.Copy.{strcpy}
use tbs_kernel.CString.Search.{strcmp}
use tbs_kernel.Memory.Allocator.{Allocator}
use tbs_kernel.Memory.State.{update}
use tbs_kernel.Base.Words.{add32, sub32}
use tbs_kernel.Base.{
  ℕ, zero, suc, ◌+◌, ◌-◌, ◌*◌, ◌/◌, ◌%◌, ◌^◌, ◌≤◌, ◌<◌, ◌≡◌, refl, sym, ap, ap₂, ◌∙◌, ◌≢◌, ◌↔◌, ◌⊎◌,
  inl, inr, Bool, true, false, not, ◌&&◌, ◌||◌, Option, none, some, List, [], ◌∷◌, ◌++◌, append-nil,
  append_assoc, arith, dec_lt, ℕ_discrete, ltb, leb, ◌==◌, if◌then◌else◌, ltb→lt, lt→ltb, ==_iff,
  Bool-cases, Option-cases, length, get_elem?, get_or, set, take, drop, replicate, length-append,
  length-set, get_or-set_self, get_or-set_ne, ◌>>=◌, All, All-append,
}
use tbs_kernel.Base.Int.{ℤ, pos, negsuc}

pub data InodeType : Type 0 where
  inode_file inode_dev inode_dir : InodeType

abbrev pub is_dir : InodeType → Bool
is_dir inode_dir = true
is_dir _ = false

-- `struct inode`. All tables of operations are those of ramfs; a flag says whether the pointer to
-- one is set.
pub record Inode : Type 0 where
  pub type : InodeType
  pub has_inode_ops : Bool
  pub has_file_ops : Bool
  pub content : ℕ
  pub ref_count : ℤ
  pub parent : ℕ

-- `ramfs_entry`, with the 32 bytes of its name.
pub record Entry : Type 0 where
  pub name : List ℕ
  pub inode : ℕ

-- `ramfs_dir`: the entries in use; `count` is their number.
abbrev pub RamfsDir : Type 0
RamfsDir = List Entry

-- `ramfs_file`, with the bytes of its block.
pub record RamfsFile : Type 0 where
  pub bytes : List ℕ
  pub size : ℕ
  pub capacity : ℕ

-- What stands at the address in `data` of an inode.
pub data Object : Type 0 where
  no_object : Object
  a_dir : RamfsDir → Object
  a_file : RamfsFile → Object

abbrev pub ramfs_max_entries : ℕ
ramfs_max_entries = 32

abbrev pub ramfs_file_capacity : ℕ
ramfs_file_capacity = 4096

abbrev pub name_field : ℕ
name_field = 32

abbrev pub sizeof_inode : ℕ
sizeof_inode = 28

abbrev pub sizeof_dir : ℕ
sizeof_dir = 1156

abbrev pub sizeof_file : ℕ
sizeof_file = 12

-- The objects, and the state of the allocator.
pub record Ramfs (A : Allocator) : Type 0 where
  pub heap : A.State
  pub inodes : ℕ → Inode
  pub objects : ℕ → Object

-- The return values 0 and -1.
abbrev pub success : ℤ
success = pos 0

abbrev pub failure : ℤ
failure = negsuc 0

abbrev pub dot : List ℕ
dot = b'.' ∷ 0 ∷ []

abbrev pub dot_dot : List ℕ
dot_dot = b'.' ∷ b'.' ∷ 0 ∷ []

abbrev pub is_zero : ℤ → Bool
is_zero (pos n) = n == 0
is_zero (negsuc n) = false

-- `strcmp(s, t) == 0`
unfoldable pub same_text : List ℕ → List ℕ → Option Bool
same_text s t = strcmp s t >>= λ d. some (is_zero d)

-- `strcpy` into a name that is still zero.
unfoldable pub store_name : List ℕ → Option (List ℕ)
store_name name = strcpy (replicate name_field 0) name

-- `for (i = 0; i < d->count; i++) if (strcmp(d->entries[i].name, name) == 0)`
unfoldable pub find_entry : RamfsDir → List ℕ → Option (Option ℕ)
find_entry [] name = some none
find_entry (e ∷ d) name =
    let rest = find_entry d name in
    same_text e.name name >>= λ same. if same then some (some e.inode) else rest

-- Memory of another kind, taken for a directory or a file, is a fault.
unfoldable pub as_dir : Object → Option RamfsDir
as_dir (a_dir d) = some d
as_dir _ = none

unfoldable pub as_file : Object → Option RamfsFile
as_file (a_file f) = some f
as_file _ = none

-- The entries with one more behind the last; past the array it is a fault.
unfoldable pub add_entry : RamfsDir → List ℕ → ℕ → Option RamfsDir
add_entry d name i = do
  name' ← store_name name
  let e : Entry = record { name = name'; inode = i }
  if ltb (length d) ramfs_max_entries then some (d ++ e ∷ []) else none

-- `memcpy` of `s` into a block at `offset`.
unfoldable pub patch : List ℕ → ℕ → List ℕ → List ℕ
patch [] offset s = []
patch (b ∷ bytes) (suc offset) s = b ∷ patch bytes offset s
patch (b ∷ bytes) zero [] = b ∷ bytes
patch (b ∷ bytes) zero (c ∷ s) = c ∷ patch bytes zero s

-- The bytes that `memcpy` copies to the caller's buffer; their number is the value returned.
unfoldable pub ramfs_read : RamfsFile → ℕ → ℕ → Option (List ℕ)
ramfs_read file offset size =
    let remaining = file.size - offset in
    let size' = if ltb remaining size then remaining else size in
    if leb file.size offset
    then some []
    else if leb (offset + size') (length file.bytes)
    then some (take size' (drop offset file.bytes))
    else none

-- `buf` has `size` bytes. With an offset above the capacity the difference wraps, and the copy
-- leaves the block.
unfoldable pub ramfs_write : RamfsFile → ℕ → List ℕ → Option (ℕ × RamfsFile)
unfolding patch
ramfs_write file offset buf =
    let size =
      if ltb file.capacity (add32 offset (length buf))
      then sub32 file.capacity offset
      else length buf in
    let written = record file {
      bytes = patch file.bytes offset (take size buf);
      size = if ltb file.size (add32 offset size) then add32 offset size else file.size;
    } in
    if leb size (length buf) && leb (offset + size) (length file.bytes)
    then some (size, written)
    else none

-- A file of size 0. Its block holds what the memory held; no byte of it is read before it is
-- written, and it stands here as zeros. A null block has no bytes.
abbrev pub empty_file : ℕ → RamfsFile
empty_file block = record {
  bytes = if block == 0 then [] else replicate ramfs_file_capacity 0;
  size = 0;
  capacity = ramfs_file_capacity;
}

module _ {A : Allocator} where
  -- The directory at the `data` of an inode.
  unfoldable pub dir_of : ℕ → Ramfs A → Option RamfsDir
  unfolding as_dir
  dir_of i fs = as_dir (fs.objects (fs.inodes i).content)

  unfoldable pub put_object : ℕ → Object → Ramfs A → Ramfs A
  put_object a o fs = record fs { objects = update fs.objects a o }

  unfoldable pub put_inode : ℕ → Inode → Ramfs A → Ramfs A
  put_inode i node fs = record fs { inodes = update fs.inodes i node }

  -- `kmalloc`
  unfoldable pub ramfs_kmalloc : ℕ → Ramfs A → Option (ℕ × Ramfs A)
  ramfs_kmalloc size fs = A.alloc size fs.heap >>= λ r. some (r.0, record fs { heap = r.1 })

  -- `NULL` is the inner `none`.
  unfoldable pub ramfs_lookup : ℕ → List ℕ → Ramfs A → Option (Option ℕ)
  unfolding dir_of
  ramfs_lookup i name fs =
      let node = fs.inodes i in
      let up = if node.parent == 0 then i else node.parent in
      let listed = (do d ← dir_of i fs; find_entry d name) in
      let named =
        same_text name dot_dot >>= λ is_dot_dot. if is_dot_dot then some (some up) else listed in
      let searched = same_text name dot >>= λ is_dot. if is_dot then some (some i) else named in
      if is_dir node.type then searched else some none

  unfoldable pub ramfs_alloc_inode : InodeType → Ramfs A → Option (ℕ × Ramfs A)
  unfolding put_inode ramfs_kmalloc
  ramfs_alloc_inode type fs = do
    (i, fs') ← ramfs_kmalloc sizeof_inode fs
    let fresh : Inode = record {
      type = type;
      has_inode_ops = true;
      has_file_ops = true;
      content = 0;
      ref_count = pos 1;
      parent = 0;
    }
    some (i, if i == 0 then fs' else put_inode i fresh fs')

  -- The tests of the pointers stand where the code follows them.
  unfoldable pub ramfs_create : ℕ → List ℕ → Ramfs A → Option (ℤ × Ramfs A)
  unfolding dir_of put_inode put_object ramfs_kmalloc ramfs_alloc_inode
  ramfs_create dir name fs = do
    d ← dir_of dir fs
    let create : Option (ℤ × Ramfs A) = do
      (i, fs1) ← ramfs_alloc_inode inode_file fs
      (f, fs2) ← ramfs_kmalloc sizeof_file fs1
      (block, fs3) ← ramfs_kmalloc ramfs_file_capacity fs2
      let made =
          put_inode i (record (fs3.inodes i) { content = f })
            (put_object f (a_file (empty_file block)) fs3)
      let added : Option (ℤ × Ramfs A) = do
        d' ← add_entry d name i
        some (success, put_object (fs.inodes dir).content (a_dir d') made)
      if f == 0 || i == 0 then none else added
    if leb ramfs_max_entries (length d) then some (failure, fs) else create

  -- The new directory's inode has no file operations and no reference.
  unfoldable pub make_dir : ℕ → Ramfs A → Option (ℕ × Ramfs A)
  unfolding put_inode put_object ramfs_kmalloc
  make_dir dir fs = do
    (i, fs1) ← ramfs_kmalloc sizeof_inode fs
    (c, fs2) ← ramfs_kmalloc sizeof_dir fs1
    let fresh : Inode = record {
      type = inode_dir;
      has_inode_ops = true;
      has_file_ops = false;
      content = c;
      ref_count = pos 0;
      parent = dir;
    }
    here ← add_entry [] dot i
    both ← add_entry here dot_dot dir
    if i == 0 || c == 0 then none else some (i, put_object c (a_dir both) (put_inode i fresh fs2))

  -- The limit of the code is 64, the array has 32 entries.
  unfoldable pub ramfs_mkdir : ℕ → List ℕ → Ramfs A → Option (ℤ × Ramfs A)
  unfolding dir_of put_object make_dir
  ramfs_mkdir dir name fs = do
    d ← dir_of dir fs
    let make : Option (ℤ × Ramfs A) = do
      (i, made) ← make_dir dir fs
      d' ← add_entry d name i
      some (success, put_object (fs.inodes dir).content (a_dir d') made)
    let search : Option (ℤ × Ramfs A) = do
      found ← find_entry d name
      elim found [ some other ↦ some (failure, fs) | none ↦ make ]
    if leb 64 (length d) then some (failure, fs) else search

  -- The name and the type of an entry; past the last it is -1, the inner `none`.
  unfoldable pub ramfs_readdir : ℕ → ℕ → Ramfs A → Option (Option (List ℕ × InodeType))
  unfolding dir_of
  ramfs_readdir dir index fs = do
    d ← dir_of dir fs
    elim (get_elem? d index) [
      | none ↦ some none
      | some e ↦ do name ← store_name e.name; some (some (name, (fs.inodes e.inode).type))
    ]
