-- ===== src/Vfs.antt =====
-- src/lib/vfs.c: paths and the lookup of their parts. An inode is a number; a path is the list of
-- its bytes with the terminator, and `none` is a read past its end, a null pointer that is followed,
-- or a write past a local buffer.
pub mod Walk
use tbs_kernel.Base.{
  ℕ, zero, suc, ◌+◌, ◌-◌, ◌||◌, Option, none, some, List, [], ◌∷◌, ◌++◌, ltb, leb, ◌==◌,
  if◌then◌else◌, length, take, ◌>>=◌,
}
use tbs_kernel.Base.Int.{ℤ, ◌+ℤ◌, ◌-ℤ◌, pos}
use tbs_kernel.Memory.State.{update}

-- The root, the `lookup` of an inode's operations if it has one, and the reference counts.
pub record Vfs : Type 0 where
  pub root_inode : Option ℕ
  pub lookup_op : ℕ → Option (List ℕ → Option ℕ)
  pub ref_count : ℕ → ℤ

abbrev pub slash : ℕ
slash = b'/'

unfoldable pub vfs_init : ℕ → Vfs → Vfs
vfs_init root v = record v { root_inode = some root }

unfoldable pub inode_ref : Option ℕ → Vfs → Vfs
inode_ref none v = v
inode_ref (some i) v = record v { ref_count = update v.ref_count i (v.ref_count i +ℤ pos 1) }

unfoldable pub inode_unref : Option ℕ → Vfs → Vfs
inode_unref none v = v
inode_unref (some i) v = record v { ref_count = update v.ref_count i (v.ref_count i -ℤ pos 1) }

-- The size of the local array `name`.
abbrev pub name_size : ℕ
name_size = 256

-- The part up to the next slash and what is left, or a part that does not fit.
pub data Part : Type 0 where
  part : List ℕ → List ℕ → Part
  too_long : Part

unfoldable pub next_part : List ℕ → List ℕ → Option Part
next_part [] name = none
next_part (c ∷ path) name =
    let longer = next_part path (name ++ c ∷ []) in
    if c == 0 || c == slash
    then some (part name (c ∷ path))
    else if leb (name_size - 1) (length name)
    then some too_long
    else longer

-- `if (*path == '/') path++`
unfoldable pub skip_slash : List ℕ → List ℕ
skip_slash [] = []
skip_slash (c ∷ path) = if c == slash then path else c ∷ path

-- The loop of `vfs_lookup`, with fuel; `NULL` is the inner `none`.
unfoldable pub lookup_loop : ℕ → List ℕ → ℕ → Vfs → Option (Option ℕ × Vfs)
lookup_loop zero path base v = none
lookup_loop (suc fuel) [] base v = none
lookup_loop (suc fuel) (c ∷ path) base v =
    let go_on : Option (Option ℕ × Vfs) = next_part (c ∷ path) [] >>= λ p. elim p [
      | too_long ↦ some (none, v)
      | part name rest ↦ elim (v.lookup_op base) [
        | none ↦ some (none, v)
        | some lookup ↦ elim (lookup name) [
          | none ↦ some (none, v)
          | some found ↦ lookup_loop fuel (skip_slash rest) found (inode_ref (some found) v)
        ]
      ]
    ] in
    if c == 0 then some (some base, v) else go_on

-- The part of `vfs_lookup` behind the first test. A null base is followed unless the path is
-- absolute or empty.
unfoldable pub lookup_from : ℕ → List ℕ → Option ℕ → Vfs → Option (Option ℕ × Vfs)
unfolding lookup_loop
lookup_from root [] base v = none
lookup_from root (c ∷ path) base v =
    if c == slash then lookup_loop (length path) path root v else (elim base [
      | none ↦ if c == 0 then some (none, v) else none
      | some b ↦ lookup_loop (length (c ∷ path)) (c ∷ path) b v
    ])

unfoldable pub vfs_lookup : Option (List ℕ) → Option ℕ → Vfs → Option (Option ℕ × Vfs)
unfolding lookup_from
vfs_lookup none base v = some (none, v)
vfs_lookup (some path) base v = elim v.root_inode [
  | none ↦ some (none, v)
  | some root ↦ lookup_from root path base v
]

-- The index of the last part of a path.
unfoldable pub path_last_from : List ℕ → ℕ → ℕ → Option ℕ
path_last_from [] i last = none
path_last_from (c ∷ path) i last =
    let rest = path_last_from path (i + 1) (if c == slash then i + 1 else last) in
    if c == 0 then some last else rest

unfoldable pub vfs_path_last : List ℕ → Option ℕ
vfs_path_last path = path_last_from path 0 0

-- The parent path in the array `temp` of 256 bytes. The path starts with a slash, so its last part
-- has an index of at least 1, and the loop copies the bytes before the last slash.
unfoldable pub parent_path : List ℕ → ℕ → Option (List ℕ)
parent_path path last =
    let copied = take (last - 1) path in
    let temp = if length copied == 0 then slash ∷ [] else copied in
    if ltb (length temp) 256 then some (temp ++ 0 ∷ []) else none

unfoldable pub vfs_lookup_parent : Option (List ℕ) → Vfs → Option (Option ℕ × Vfs)
vfs_lookup_parent none v = some (none, v)
vfs_lookup_parent (some []) v = none
vfs_lookup_parent (some (c ∷ path)) v =
    if c == slash
    then (do
      last ← vfs_path_last (c ∷ path)
      temp ← parent_path (c ∷ path) last
      vfs_lookup (some temp) none v)
    else some (none, v)
