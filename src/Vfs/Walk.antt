-- ===== src/Vfs/Walk.antt =====
-- `vfs_lookup` of src/lib/vfs.c walks the parts of a path one after the other.
use tbs_kernel.Base.{
  ℕ, zero, suc, ◌+◌, ◌≤◌, ◌<◌, ◌≡◌, refl, ap, ◌∙◌, ◌≢◌, inl, inr, true, false, ◌||◌, Option, none,
  some, List, [], ◌∷◌, ◌++◌, append-nil, append_assoc, arith, leb, ◌==◌, Option-cases, length,
  length-append, All,
}
use tbs_kernel.Vfs.{Vfs, part, slash, inode_ref, next_part, skip_slash, lookup_loop, vfs_lookup}

-- A part of a path: neither terminator nor slash, and at most 255 bytes.
abbrev pub IsName : List ℕ → Type 0
IsName name = All (λ c. (c ≢ 0) × (c ≢ slash)) name × (length name ≤ 255)

-- Every name followed by a slash, and a last one, which may be empty.
unfoldable pub path_of : List (List ℕ) → List ℕ → List ℕ
path_of [] last = last
path_of (name ∷ names) last = name ++ slash ∷ path_of names last

-- The parts that count: an empty last one does not.
unfoldable pub parts_of : List (List ℕ) → List ℕ → List (List ℕ)
parts_of [] [] = []
parts_of [] (c ∷ last) = (c ∷ last) ∷ []
parts_of (name ∷ names) last = name ∷ parts_of names last

-- The inode at the end of a walk, and a reference to each that the walk found; the walk stops where
-- an inode has no `lookup` or does not know the name.
unfoldable pub walk_parts : List (List ℕ) → ℕ → Vfs → Option ℕ × Vfs
walk_parts [] base v = (some base, v)
walk_parts (name ∷ names) base v = elim (v.lookup_op base) [
  | none ↦ (none, v)
  | some lookup ↦ elim (lookup name) [
    | none ↦ (none, v)
    | some found ↦ walk_parts names found (inode_ref (some found) v)
  ]
]

next_part-name :
    (s acc rest : List ℕ) (stop : ℕ)
    → All (λ c. (c ≢ 0) × (c ≢ slash)) s
    → length acc + length s ≤ 255
    → (stop == 0 || stop == slash) ≡ true
    → next_part (s ++ stop ∷ rest) acc ≡ some (part (acc ++ s) (stop ∷ rest))
unfolding next_part
next_part-name [] acc rest stop all fits ends = rw (ends, append-nil acc)
next_part-name (c ∷ s) acc rest stop all fits ends =
    let inside : (c == 0 || c == slash) ≡ false = ground (arith, all.0) in
    let room : leb 255 (length acc) ≡ false = ground arith in
    let size : length (acc ++ c ∷ []) + length s ≤ 255 =
      omega (arith, length-append acc (c ∷ []), fits) in
    rw (inside, room, ← append_assoc acc (c ∷ []) s)
      (next_part-name s (acc ++ c ∷ []) rest stop all.1 size ends)

lookup_step :
    (fuel c : ℕ) (path name rest : List ℕ) (names : List (List ℕ)) (base : ℕ) (v : Vfs)
    → (c == 0) ≡ false
    → next_part (c ∷ path) [] ≡ some (part name rest)
    → ((found : ℕ) (u : Vfs)
        → lookup_loop fuel (skip_slash rest) found u ≡ some (walk_parts names found u))
    → lookup_loop (suc fuel) (c ∷ path) base v ≡ some (walk_parts (name ∷ names) base v)
unfolding lookup_loop walk_parts
lookup_step fuel c path name rest names base v more e go_on =
    elim (Option-cases (v.lookup_op base)) [
      | inl no_op ↦ rw (walk_parts, more, e, no_op)
      | inr (lookup, op) ↦ elim (Option-cases (lookup name)) [
        | inl unknown ↦ rw (walk_parts, more, e, op, unknown)
        | inr (found, known) ↦
            rw (walk_parts, more, e, op, known, go_on found (inode_ref (some found) v))
      ]
    ]

lookup_end :
    (fuel : ℕ) (rest : List ℕ) (base : ℕ) (v : Vfs)
    → lookup_loop (suc fuel) (0 ∷ rest) base v ≡ some (walk_parts [] base v)
unfolding lookup_loop walk_parts
lookup_end fuel rest base v = refl

lookup_loop-walk_parts :
    (fuel : ℕ) (names : List (List ℕ)) (last rest : List ℕ) (base : ℕ) (v : Vfs)
    → All IsName names
    → IsName last
    → length (path_of names last) < fuel
    → lookup_loop fuel (path_of names last ++ 0 ∷ rest) base v
      ≡ some (walk_parts (parts_of names last) base v)
unfolding path_of parts_of skip_slash
lookup_loop-walk_parts zero names last rest base v all ok enough = absurd (omega arith)
lookup_loop-walk_parts (suc fuel) [] [] rest base v all ok enough = lookup_end fuel rest base v
lookup_loop-walk_parts (suc fuel) [] (c ∷ last) rest base v all ok enough =
    let e : next_part ((c ∷ last) ++ 0 ∷ rest) [] ≡ some (part (c ∷ last) (0 ∷ rest)) =
      next_part-name (c ∷ last) [] rest 0 ok.0 (omega (arith, ok.1)) refl in
    let more : (c == 0) ≡ false = ground (arith, ok.0) in
    lookup_step fuel c (last ++ 0 ∷ rest) (c ∷ last) (0 ∷ rest) [] base v more e
      (λ found u. lookup_loop-walk_parts fuel [] [] rest found u tt (tt, omega arith) (omega arith))
lookup_loop-walk_parts (suc fuel) ([] ∷ names) last rest base v all ok enough =
    let behind : List ℕ = path_of names last ++ 0 ∷ rest in
    let e : next_part (slash ∷ behind) [] ≡ some (part [] (slash ∷ behind)) =
      next_part-name [] [] behind slash tt (omega arith) refl in
    lookup_step fuel slash behind [] (slash ∷ behind) (parts_of names last) base v refl e
      (λ found u. lookup_loop-walk_parts fuel names last rest found u all.1 ok (omega arith))
lookup_loop-walk_parts (suc fuel) ((c ∷ name) ∷ names) last rest base v all ok enough =
    let behind : List ℕ = path_of names last ++ 0 ∷ rest in
    let split = append_assoc name (slash ∷ path_of names last) (0 ∷ rest) in
    let e : next_part ((c ∷ name) ++ slash ∷ behind) [] ≡ some (part (c ∷ name) (slash ∷ behind)) =
      next_part-name (c ∷ name) [] behind slash all.0.0 (omega (arith, all.0.1)) refl in
    let more : (c == 0) ≡ false = ground (arith, all.0.0) in
    let small : length (path_of names last) < fuel =
      omega (arith, enough, length-append name (slash ∷ path_of names last)) in
    rw split (
      lookup_step fuel c (name ++ slash ∷ behind) (c ∷ name) (slash ∷ behind) (parts_of names last)
        base v more e
        (λ found u. lookup_loop-walk_parts fuel names last rest found u all.1 ok small))

-- An absolute path whose parts have at most 255 bytes resolves from the root, whatever the base:
-- `vfs_lookup` returns what the walk over the parts returns, counts one reference for every inode
-- found on the way, and a slash at the end of the path changes nothing.
pub vfs_lookup-walk_parts :
    (names : List (List ℕ)) (last rest : List ℕ) (base : Option ℕ) (root : ℕ) (v : Vfs)
    → v.root_inode ≡ some root
    → All IsName names
    → IsName last
    → vfs_lookup (some (slash ∷ (path_of names last ++ 0 ∷ rest))) base v
      ≡ some (walk_parts (parts_of names last) root v)
unfolding vfs_lookup
vfs_lookup-walk_parts names last rest base root v has_root all ok =
    let path : List ℕ = path_of names last ++ 0 ∷ rest in
    let enough : length (path_of names last) < length path =
      omega (arith, length-append (path_of names last) (0 ∷ rest)) in
    ap (λ o. elim o [ none ↦ some (none, v) | some r ↦ lookup_loop (length path) path r v ])
      has_root
    ∙ lookup_loop-walk_parts (length path) names last rest root v all ok enough
