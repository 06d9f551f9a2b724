-- ===== src/Memory/Pmm/Alloc.antt =====
-- What `pmm_alloc_page` and `pmm_free_page` of src/lib/memory.c promise.
use tbs_kernel.Base.{
  ℕ, zero, suc, ◌+◌, ◌*◌, ◌/◌, ◌^◌, ◌≤◌, ◌<◌, ◌≡◌, refl, ◌≢◌, ◌⊎◌, inl, inr, none, some, List,
  arith, ℕ_discrete, ltb, ◌==◌, if◌then◌else◌, Bool-cases, Option-cases, length,
}
use tbs_kernel.Memory.Pmm.{Pmm, pmm_test_bit, pmm_alloc_page, pmm_free_page, find_free, page_size}
use tbs_kernel.Memory.Pmm.Bitmap.{
  pmm_test_bit-clear, pmm_test_bit-set, length-pmm_clear_bit, length-pmm_set_bit,
  pmm_clear_bit-IsBytes, pmm_set_bit-IsBytes, IsBytes,
}

-- The bitmap covers every page, and its cells are bytes.
pub record IsValid (pmm : Pmm) : Type 0 where
  pub bytes : IsBytes pmm.bitmap
  pub covers : pmm.total_pages ≤ 8 * length pmm.bitmap
  pub addresses : pmm.total_pages ≤ 2 ^ 20

abbrev pub IsFree : Pmm → ℕ → Type 0
IsFree pmm page = pmm_test_bit pmm.bitmap page ≡ 0

find_free-none :
    (bm : List ℕ) (n p q : ℕ) → find_free bm n p ≡ none → p ≤ q → q < p + n → pmm_test_bit bm q ≢ 0
unfolding find_free
find_free-none bm zero p q e l r = absurd (omega arith)
find_free-none bm (suc n) p q e l r = elim (ℕ_discrete p q) [
  | yes h ↦ rw (← h) (ground arith)
  | no h ↦ find_free-none bm n (p + 1) q (ground arith) (omega arith) (omega arith)
]

record IsFirst (bm : List ℕ) (n p page : ℕ) : Type 0 where
  free : pmm_test_bit bm page ≡ 0
  low : p ≤ page
  high : page < p + n
  first : (q : ℕ) → p ≤ q → q < page → pmm_test_bit bm q ≢ 0

find_free-IsFirst :
    (bm : List ℕ) (n p page : ℕ) → find_free bm n p ≡ some page → IsFirst bm n p page
unfolding find_free
find_free-IsFirst bm zero p page e = cc
find_free-IsFirst bm (suc n) p page e = elim (Bool-cases (pmm_test_bit bm p == 0)) [
  | inl h ↦
      let eq : p ≡ page = ground arith in
      record {
        free = ground arith;
        low = omega arith;
        high = omega arith;
        first = λ q l r. absurd (omega arith);
      }
  | inr h ↦
      let rest = find_free-IsFirst bm n (p + 1) page (ground arith) in
      record {
        free = rest.free;
        low = omega arith;
        high = omega arith;
        first = λ q l r. elim (ℕ_discrete p q) [
          | yes same ↦ rw (← same) (ground arith)
          | no other ↦ rest.first q (omega arith) r
        ];
      }
]

total_pages-alloc : (pmm : Pmm) → (pmm_alloc_page pmm).0.total_pages ≡ pmm.total_pages
unfolding pmm_alloc_page
total_pages-alloc pmm = ground arith

-- `pmm_alloc_page` either finds no free page and changes nothing, or returns the address of the
-- first free page, marks that page used and leaves the state of every other page alone.
pub record Allocated (pmm pmm' : Pmm) (page : ℕ) : Type 0 where
  pub inside : page < pmm.total_pages
  pub was_free : IsFree pmm page
  pub first : (q : ℕ) → q < page → ¬ IsFree pmm q
  pub others :
      (q : ℕ)
      → q < pmm.total_pages
      → pmm_test_bit pmm'.bitmap q ≡ (if page == q then 1 else pmm_test_bit pmm.bitmap q)

-- On a valid bitmap `pmm_alloc_page` keeps it valid, and either returns 0, changes nothing and no
-- page is free, or returns the address of the first free page, marks it used, and changes the
-- state of no other page.
pub pmm_alloc_page-first :
    {pmm : Pmm}
    → IsValid pmm
    → let (pmm', address) = pmm_alloc_page pmm in
      IsValid pmm'
      × (((address ≡ 0) × (pmm' ≡ pmm) × ((q : ℕ) → q < pmm.total_pages → ¬ IsFree pmm q))
          ⊎ ((page : ℕ) × (address ≡ page * page_size) × Allocated pmm pmm' page))
unfolding pmm_alloc_page
pmm_alloc_page-first {pmm} v = elim (Option-cases (find_free pmm.bitmap pmm.total_pages 0)) [
  | inl e ↦
      rw (e, pmm_alloc_page)
        (
          v,
          inl (
            refl,
            refl,
            λ q h. find_free-none pmm.bitmap pmm.total_pages 0 q e (omega arith) (omega arith),
          ),
        )
  | inr (page, e) ↦
      let found = find_free-IsFirst pmm.bitmap pmm.total_pages 0 page e in
      rw (e, pmm_alloc_page)
        (
          record {
            bytes = pmm_set_bit-IsBytes pmm.bitmap page v.bytes;
            covers = omega (arith, v.covers, length-pmm_set_bit pmm.bitmap page);
            addresses = v.addresses;
          },
          inr (
            page,
            omega (arith, v.addresses, found.high),
            record {
              inside = omega (arith, found.high);
              was_free = found.free;
              first = λ q h. found.first q (omega arith) h;
              others = λ q h. pmm_test_bit-set pmm.bitmap page q v.bytes (omega (arith, v.covers));
            },
          ),
        )
]

-- On a valid bitmap `pmm_free_page` of any address keeps it valid, makes the page that holds it
-- free, if the allocator knows that page, and changes the state of no other page.
pub pmm_free_page-frees :
    {pmm : Pmm} (address q : ℕ)
    → IsValid pmm
    → q < pmm.total_pages
    → IsValid (pmm_free_page pmm address)
      × (pmm_test_bit (pmm_free_page pmm address).bitmap q
          ≡ (if address / page_size == q then 0 else pmm_test_bit pmm.bitmap q))
unfolding pmm_free_page
pmm_free_page-frees {pmm} address q v h =
    elim (Bool-cases (ltb (address / page_size) pmm.total_pages)) [
      | inl e ↦ rw e (
        record {
          bytes = pmm_clear_bit-IsBytes pmm.bitmap (address / page_size) v.bytes;
          covers = omega (arith, v.covers, length-pmm_clear_bit pmm.bitmap (address / page_size));
          addresses = v.addresses;
        },
        pmm_test_bit-clear pmm.bitmap (address / page_size) q v.bytes (omega (arith, v.covers)),
      )
      | inr e ↦ rw e (v, ground arith)
    ]

-- On a valid bitmap, freeing the page that was just handed out gives back every page's state from before.
pub free-alloc :
    {pmm : Pmm} (q : ℕ)
    → IsValid pmm
    → q < pmm.total_pages
    → (pmm_alloc_page pmm).1 ≢ 0
    → pmm_test_bit (pmm_free_page (pmm_alloc_page pmm).0 (pmm_alloc_page pmm).1).bitmap q
      ≡ pmm_test_bit pmm.bitmap q
free-alloc {pmm} q v h ne =
    let (v', r) = pmm_alloc_page-first v in
    elim r [
      | inl (zero_address, _, _) ↦ absurd (ne zero_address)
      | inr (page, eq, a) ↦
          let e : (pmm_alloc_page pmm).1 / page_size ≡ page = omega arith in
          ground (
            arith,
            pmm_free_page-frees {pmm = (pmm_alloc_page pmm).0} (pmm_alloc_page pmm).1 q v',
            total_pages-alloc pmm,
            a.others q h,
            a.was_free,
          )
    ]
