-- ===== src/Ramfs/Subdirectories.antt =====
-- `ramfs_mkdir` of src/kernel/drivers/ramfs.c: the new directory.
use tbs_kernel.Ramfs.Directories.{
  chosen, Allocates, Extends, parent_of, lookup-chosen, add_entry-room, stored, update_self,
  update_other, entry-Extends,
}
use tbs_kernel.Memory.Allocator.{Allocator}
use tbs_kernel.Ramfs.{
  ramfs_mkdir, dir_of, put_inode, put_object, RamfsDir, Ramfs, is_dir, ramfs_max_entries,
  name_field, ramfs_lookup, sizeof_inode, sizeof_dir, success, dot, dot_dot, find_entry, Inode,
  inode_dir, a_dir, as_dir, make_dir, ramfs_kmalloc, same_text, Entry, add_entry,
}
use tbs_kernel.CString.Copy.Bounds.{IsText}
use tbs_kernel.Base.Int.{pos}
use tbs_kernel.Memory.State.{update}
use tbs_kernel.CString.Search.{strcmp}
use tbs_kernel.Base.{
  ℕ, ◌<◌, ◌≡◌, refl, sym, ap, ◌∙◌, ◌≢◌, Bool, true, false, Option, none, some, List, [], ◌∷◌, ◌++◌,
  arith, leb, ◌==◌, length,
}

chosen-none :
    (a b : Option Bool) (here up : ℕ) (l : Option (Option ℕ))
    → chosen a b here up l ≡ some none
    → l ≡ some none
chosen-none none b here up l h = absurd (ground (arith, h))
chosen-none (some true) b here up l h = absurd (ground (arith, h))
chosen-none (some false) none here up l h = absurd (ground (arith, h))
chosen-none (some false) (some true) here up l h = absurd (ground (arith, h))
chosen-none (some false) (some false) here up l h = h

one_dot : ◌≢◌ {A = ℕ} b'.' 0
one_dot = ground arith

module _ {A : Allocator} where
  -- A directory of at most 31 entries, a new name that is a text of at most 31 bytes, and an
  -- allocator that gives blocks for the inode and its entries, other than the directory's own:
  -- `ramfs_mkdir` returns 0. The new inode is a directory in which "." is found as itself and ".."
  -- as the directory that it stands in; in that one every name that was found is still found with
  -- its old inode, and the new name is found with the new inode.
  pub ramfs_mkdir-ramfs_lookup :
      (dir : ℕ) (s q : List ℕ) (d : RamfsDir) (fs : Ramfs A) (i c : ℕ) (h1 h2 : A.State)
      → is_dir (fs.inodes dir).type ≡ true
      → dir_of dir fs ≡ some d
      → length d < ramfs_max_entries
      → IsText s × (length s < name_field)
      → ramfs_lookup dir (s ++ 0 ∷ q) fs ≡ some none
      → Allocates A sizeof_inode fs.heap i h1
      → Allocates A sizeof_dir h1 c h2
      → (i ≢ dir) × (c ≢ (fs.inodes dir).content) × (dir ≢ 0)
      → (fs' : Ramfs A) × (ramfs_mkdir dir (s ++ 0 ∷ q) fs ≡ some (success, fs'))
        × (is_dir (fs'.inodes i).type ≡ true)
        × (ramfs_lookup i dot fs' ≡ some (some i))
        × (ramfs_lookup i dot_dot fs' ≡ some (some dir))
        × Extends dir s i fs fs'
  unfolding ramfs_mkdir make_dir ramfs_kmalloc dir_of put_inode put_object same_text strcmp
  ramfs_mkdir-ramfs_lookup dir s q d fs i c h1 h2 kind now room (text, short) absent (a1, n1)
        (a2, n2) (apart, own, root) =
      let i0 : (i == 0) ≡ false = ground arith in
      let c0 : (c == 0) ≡ false = ground arith in
      let dir0 : (dir == 0) ≡ false = ground arith in
      let few : leb 64 (length d) ≡ false = ground arith in
      let missing : find_entry d (s ++ 0 ∷ q) ≡ some none =
        chosen-none (same_text (s ++ 0 ∷ q) dot) (same_text (s ++ 0 ∷ q) dot_dot) dir
          (parent_of dir (fs.inodes dir)) (find_entry d (s ++ 0 ∷ q))
          (sym (lookup-chosen dir (s ++ 0 ∷ q) d fs kind now) ∙ absent) in
      let new = add_entry-room d s q i room text short in
      let fresh : Inode = record {
        type = inode_dir;
        has_inode_ops = true;
        has_file_ops = false;
        content = c;
        ref_count = pos 0;
        parent = dir;
      } in
      let b = (fs.inodes dir).content in
      let dir' = d ++ record { name = stored s; inode = i } ∷ [] in
      let one : Entry = record { name = stored (b'.' ∷ []); inode = i } in
      let two : RamfsDir = one ∷ record { name = stored (b'.' ∷ b'.' ∷ []); inode = dir } ∷ [] in
      let first : add_entry [] dot i ≡ some (one ∷ []) =
        add_entry-room [] (b'.' ∷ []) [] i (omega arith) (one_dot, _) (omega arith) in
      let second : add_entry (one ∷ []) dot_dot dir ≡ some two =
        add_entry-room (one ∷ []) (b'.' ∷ b'.' ∷ []) [] dir (omega arith) (one_dot, (one_dot, _))
          (omega arith) in
      let fs' : Ramfs A = record {
        heap = h2;
        inodes = update fs.inodes i fresh;
        objects = update (update fs.objects c (a_dir two)) b (a_dir dir');
      } in
      let node' : fs'.inodes dir ≡ fs.inodes dir = update_other _ _ apart in
      let later : dir_of dir fs' ≡ some dir' =
        ap (λ (n : Inode). as_dir (fs'.objects n.content)) node' ∙ ap as_dir (update_self _ b _) in
      let node_i : fs'.inodes i ≡ fresh = update_self _ i _ in
      let at_i : dir_of i fs' ≡ some two = ap as_dir (
        ap (λ (n : Inode). fs'.objects n.content) node_i
        ∙ update_other _ _ (λ z. own (sym z))
        ∙ update_self _ c _) in
      let kind_i : is_dir (fs'.inodes i).type ≡ true = ap (λ (n : Inode). is_dir n.type) node_i in
      let up_i : parent_of i (fs'.inodes i) ≡ dir = ap (parent_of i) node_i ∙ rw dir0 refl in
      (
        fs',
        rw (now, few, missing, a1, a2, first, second, i0, c0, new) refl,
        kind_i,
        lookup-chosen i dot two fs' kind_i at_i,
        lookup-chosen i dot_dot two fs' kind_i at_i ∙ ap (λ k. some (some k)) up_i,
        entry-Extends dir s i d fs fs' kind now text (ap (λ (n : Inode). n.type) node')
            (ap (λ (n : Inode). n.parent) node') later,
      )
