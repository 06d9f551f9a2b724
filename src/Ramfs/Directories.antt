-- ===== src/Ramfs/Directories.antt =====
-- `ramfs_lookup`, `ramfs_create` and `ramfs_mkdir` of src/kernel/drivers/ramfs.c together: what a
-- new entry changes in what a directory's lookup finds.
use tbs_kernel.Base.Int.{negsuc, ℤ, pos}
use tbs_kernel.Memory.Allocator.{Allocator}
use tbs_kernel.Ramfs.{
  Entry, find_entry, same_text, RamfsDir, ramfs_lookup, Ramfs, is_dir, dir_of, dot, dot_dot, Inode,
  ramfs_create, ramfs_max_entries, is_zero, name_field, sizeof_inode, sizeof_file,
  ramfs_file_capacity, success, as_file, empty_file, add_entry, put_inode, store_name, put_object,
  inode_file, a_file, a_dir, as_dir,
}
use tbs_kernel.CString.Copy.Bounds.{IsText, strcpy-fits}
use tbs_kernel.CString.Search.Compare.{strcmp-decides, lexicographic}
use tbs_kernel.Memory.State.{update}
use tbs_kernel.Base.{
  ℕ, zero, suc, ◌<◌, ◌≡◌, refl, sym, ap, ◌∙◌, ◌≢◌, inl, inr, Bool, true, false, Option, none, some,
  List, [], ◌∷◌, ◌++◌, arith, leb, ◌==◌, if◌then◌else◌, lt→ltb, Bool-cases, Option-cases, length,
  drop, replicate, ◌>>=◌,
}

-- An allocation that gives a block.
abbrev pub Allocates : (A : Allocator) → ℕ → A.State → ℕ → A.State → Type 0
Allocates A n h a h' = (A.alloc n h ≡ some (a, h')) × (a ≢ 0)

-- What an entry is for a search that asked whether it has the name.
abbrev chosen_entry : ℕ → Option Bool → Option (Option ℕ)
chosen_entry i named = named >>= λ same. some (if same then some i else none)

-- What a search goes on with behind the entries that it has passed.
abbrev then_entry : Entry → List ℕ → Option ℕ → Option (Option ℕ)
then_entry e t (some j) = some (some j)
then_entry e t none = chosen_entry e.inode (same_text e.name t)

find_entry-append :
    (d : RamfsDir) (e : Entry) (t : List ℕ)
    → find_entry (d ++ e ∷ []) t ≡ find_entry d t >>= then_entry e t
unfolding find_entry
find_entry-append [] e t = elim (Option-cases (same_text e.name t)) [
  | inl h ↦ rw h refl
  | inr (b, h) ↦ elim (Bool-cases b) [ inl k ↦ rw (h, k) refl | inr k ↦ rw (h, k) refl ]
]
find_entry-append (x ∷ d) e t = elim (Option-cases (same_text x.name t)) [
  | inl h ↦ rw h refl
  | inr (b, h) ↦ elim (Bool-cases b) [
    | inl k ↦ rw (h, k) refl
    | inr k ↦ rw (h, k) (find_entry-append d e t)
  ]
]

-- The tests of a lookup, with the search of the entries as their last case.
abbrev pub chosen : Option Bool → Option Bool → ℕ → ℕ → Option (Option ℕ) → Option (Option ℕ)
chosen a b here up listed =
    a >>= λ x. if x then some (some here) else (b >>= λ y. if y then some (some up) else listed)

chosen-then_entry :
    (a b : Option Bool) (here up : ℕ) (l l' : Option (Option ℕ)) (e : Entry) (t : List ℕ)
    (r : Option ℕ)
    → l' ≡ (l >>= then_entry e t)
    → chosen a b here up l ≡ some r
    → chosen a b here up l' ≡ then_entry e t r
chosen-then_entry none b here up l l' e t r more found = absurd (ground (arith, found))
chosen-then_entry (some true) b here up l l' e t none more found = absurd (ground (arith, found))
chosen-then_entry (some true) b here up l l' e t (some j) more found = found
chosen-then_entry (some false) none here up l l' e t r more found = absurd (ground (arith, found))
chosen-then_entry (some false) (some true) here up l l' e t none more found =
    absurd (ground (arith, found))
chosen-then_entry (some false) (some true) here up l l' e t (some j) more found = found
chosen-then_entry (some false) (some false) here up l l' e t r more found =
    more ∙ ap (λ k. k >>= then_entry e t) found

abbrev pub parent_of : ℕ → Inode → ℕ
parent_of dir node = if node.parent == 0 then dir else node.parent

pub same_text_self : (s p q : List ℕ) → IsText s → same_text (s ++ 0 ∷ p) (s ++ 0 ∷ q) ≡ some true
unfolding same_text
same_text_self s p q h = rw ((strcmp-decides s s p q h h).0.1 refl) refl

is_zero-false : (z : ℤ) → z ≢ pos 0 → is_zero z ≡ false
is_zero-false (pos zero) h = absurd (h refl)
is_zero-false (pos (suc n)) h = ground arith
is_zero-false (negsuc n) h = refl

pub same_text_other :
    (s t p q : List ℕ)
    → IsText s
    → IsText t
    → s ≢ t
    → same_text (s ++ 0 ∷ p) (t ++ 0 ∷ q) ≡ some false
unfolding same_text
same_text_other s t p q hs ht apart =
    let decides = strcmp-decides s t p q hs ht in
    rw decides.1 (
      ap some
        (is_zero-false (lexicographic s t) (λ z. apart (decides.0.0 (decides.1 ∙ ap some z)))))

pub update_self {ℓ} : {B : Type ℓ} (g : ℕ → B) (a : ℕ) (v : B) → update g a v a ≡ v
unfolding update
update_self g a v = ground arith

pub update_other {ℓ} : {B : Type ℓ} (g : ℕ → B) {a x : ℕ} (v : B) → a ≢ x → update g a v x ≡ g x
unfolding update
update_other g {a = a} {x = x} v h = ground arith

-- The name as the entry holds it.
abbrev pub stored : List ℕ → List ℕ
stored s = s ++ 0 ∷ drop (suc (length s)) (replicate name_field 0)

pub add_entry-room :
    (d : RamfsDir) (s q : List ℕ) (i : ℕ)
    → length d < ramfs_max_entries
    → IsText s
    → length s < name_field
    → add_entry d (s ++ 0 ∷ q) i ≡ some (d ++ record { name = stored s; inode = i } ∷ [])
unfolding add_entry store_name
add_entry-room d s q i room text short =
    rw (strcpy-fits (replicate name_field 0) s q text short, lt→ltb (length d) 32 room) refl

module _ {A : Allocator} where
  pub lookup-chosen :
      (dir : ℕ) (t : List ℕ) (d : RamfsDir) (fs : Ramfs A)
      → is_dir (fs.inodes dir).type ≡ true
      → dir_of dir fs ≡ some d
      → ramfs_lookup dir t fs
        ≡ chosen
            (same_text t dot)
            (same_text t dot_dot)
            dir
            (parent_of dir (fs.inodes dir))
            (find_entry d t)
  unfolding ramfs_lookup dir_of
  lookup-chosen dir t d fs kind now = rw (kind, now) refl

  lookup-append :
      (dir : ℕ) (t : List ℕ) (d : RamfsDir) (e : Entry) (fs fs' : Ramfs A) (r : Option ℕ)
      → is_dir (fs.inodes dir).type ≡ true
      → dir_of dir fs ≡ some d
      → (fs'.inodes dir).type ≡ (fs.inodes dir).type
      → (fs'.inodes dir).parent ≡ (fs.inodes dir).parent
      → dir_of dir fs' ≡ some (d ++ e ∷ [])
      → ramfs_lookup dir t fs ≡ some r
      → ramfs_lookup dir t fs' ≡ then_entry e t r
  lookup-append dir t d e fs fs' r kind now same_type same_parent later found =
      let up = parent_of dir (fs.inodes dir) in
      let before = lookup-chosen dir t d fs kind now in
      let after = lookup-chosen dir t (d ++ e ∷ []) fs' (ap is_dir same_type ∙ kind) later in
      let up_same : parent_of dir (fs'.inodes dir) ≡ up =
        ap (λ k. if k == 0 then dir else k) same_parent in
      let more =
        chosen-then_entry (same_text t dot) (same_text t dot_dot) dir up (find_entry d t)
          (find_entry (d ++ e ∷ []) t) e t r (find_entry-append d e t) (sym before ∙ found) in
      after
      ∙ ap (λ k. chosen (same_text t dot) (same_text t dot_dot) dir k (find_entry (d ++ e ∷ []) t))
          up_same
      ∙ more

  -- What the entry of a new name changes in the lookups of its directory.
  abbrev pub Extends : ℕ → List ℕ → ℕ → Ramfs A → Ramfs A → Type 0
  Extends dir s i fs fs' =
      ((t : List ℕ) (j : ℕ)
        → ramfs_lookup dir t fs ≡ some (some j)
        → ramfs_lookup dir t fs' ≡ some (some j))
      × ((t p : List ℕ)
          → IsText t
          → ramfs_lookup dir (t ++ 0 ∷ p) fs ≡ some none
          → ((s ≡ t) → ramfs_lookup dir (t ++ 0 ∷ p) fs' ≡ some (some i))
            × ((s ≢ t) → ramfs_lookup dir (t ++ 0 ∷ p) fs' ≡ some none))

  pub entry-Extends :
      (dir : ℕ) (s : List ℕ) (i : ℕ) (d : RamfsDir) (fs fs' : Ramfs A)
      → is_dir (fs.inodes dir).type ≡ true
      → dir_of dir fs ≡ some d
      → IsText s
      → (fs'.inodes dir).type ≡ (fs.inodes dir).type
      → (fs'.inodes dir).parent ≡ (fs.inodes dir).parent
      → dir_of dir fs' ≡ some (d ++ record { name = stored s; inode = i } ∷ [])
      → Extends dir s i fs fs'
  entry-Extends dir s i d fs fs' kind now text type' parent' later =
      let e : Entry = record { name = stored s; inode = i } in
      let pad = drop (suc (length s)) (replicate name_field 0) in
      let found = λ (t : List ℕ) (r : Option ℕ).
        lookup-append dir t d e fs fs' r kind now type' parent' later in
      (
        λ t j h. found t (some j) h,
        λ t p text' h. (
          λ same.
              let hit : same_text (stored s) (t ++ 0 ∷ p) ≡ some true =
                rw (← same) (same_text_self s pad p text) in
              found (t ++ 0 ∷ p) none h ∙ ap (chosen_entry i) hit,
          λ apart.
              found (t ++ 0 ∷ p) none h
              ∙ ap (chosen_entry i) (same_text_other s t pad p text text' apart),
        ),
      )

  -- A directory of at most 31 entries, a name that is a text of at most 31 bytes, and an allocator
  -- that gives blocks for the inode, the file and its bytes, the first two other than the
  -- directory's own: `ramfs_create` returns 0, and the new inode stands for an empty file of 4096
  -- bytes. In the directory every name that was found is still found with its old inode; a name
  -- that was not found is found exactly if it is the new one, with the new inode.
  pub ramfs_create-ramfs_lookup :
      (dir : ℕ) (s q : List ℕ) (d : RamfsDir) (fs : Ramfs A) (i f block : ℕ) (h1 h2 h3 : A.State)
      → is_dir (fs.inodes dir).type ≡ true
      → dir_of dir fs ≡ some d
      → length d < ramfs_max_entries
      → IsText s × (length s < name_field)
      → Allocates A sizeof_inode fs.heap i h1
      → Allocates A sizeof_file h1 f h2
      → Allocates A ramfs_file_capacity h2 block h3
      → i ≢ dir
      → f ≢ (fs.inodes dir).content
      → (fs' : Ramfs A) × (ramfs_create dir (s ++ 0 ∷ q) fs ≡ some (success, fs'))
        × (as_file (fs'.objects (fs'.inodes i).content) ≡ some (empty_file block))
        × Extends dir s i fs fs'
  unfolding ramfs_create dir_of as_file put_inode put_object
  ramfs_create-ramfs_lookup dir s q d fs i f block h1 h2 h3 kind now room (text, short) (a1, n1)
        (a2, n2) (a3, n3) apart own =
      let room' : leb 32 (length d) ≡ false = ground arith in
      let i0 : (i == 0) ≡ false = ground arith in
      let f0 : (f == 0) ≡ false = ground arith in
      let new = add_entry-room d s q i room text short in
      let dir' = d ++ record { name = stored s; inode = i } ∷ [] in
      let fresh : Inode = record {
        type = inode_file;
        has_inode_ops = true;
        has_file_ops = true;
        content = f;
        ref_count = pos 1;
        parent = 0;
      } in
      let begun : Inode = record fresh { content = 0 } in
      let back = update_self fs.inodes i begun in
      let c = (fs.inodes dir).content in
      let fs' : Ramfs A = record {
        heap = h3;
        inodes = update (update fs.inodes i (record fresh { content = 0 })) i fresh;
        objects = update (update fs.objects f (a_file (empty_file block))) c (a_dir dir');
      } in
      let later : as_dir (fs'.objects c) ≡ some dir' = ap as_dir (update_self _ c _) in
      let node' : fs'.inodes dir ≡ fs.inodes dir =
        update_other _ _ apart ∙ update_other _ _ apart in
      (
        fs',
        (rw (now, room', a1, i0, a2, f0, a3, new, back) refl),
        ap as_file (
            ap fs'.objects (ap (λ (n : Inode). n.content) (update_self _ i _))
            ∙ update_other _ _ (λ z. own (sym z))
            ∙ update_self _ f _),
        entry-Extends dir s i d fs fs' kind now text (ap (λ (n : Inode). n.type) node')
            (ap (λ (n : Inode). n.parent) node') ground (arith, later),
      )
