-- ===== src/Memory/Vmm/Mapping.antt =====
-- A page that `vmm_map_page` of src/lib/memory.c maps to itself passes the identity check.
use tbs_kernel.Memory.Vmm.{
  pde_index, pte_index, is_present, frame, make_entry, write_entry, vmm_map_page,
  vmm_check_identity_page,
}
use tbs_kernel.Base.{ℕ, ◌+◌, ◌/◌, ◌%◌, ◌^◌, ◌<◌, ◌≡◌, true, some, arith, ◌==◌}
use tbs_kernel.Memory.State.{Mm, update}

write_entry_self : (tables : ℕ → ℕ → ℕ) (t i entry : ℕ) → write_entry tables t i entry t i ≡ entry
unfolding update
write_entry_self tables t i entry =
    let row : (t == t) ≡ true = ground arith in
    let cell : (i == i) ≡ true = ground arith in rw (row, cell)

-- Mapping a 32-bit page to itself with the flags present and writable, where the directory has a
-- page table for it, returns, and then every address of the page passes the identity check.
pub vmm_map_page-identity :
    (virt a : ℕ) (mm : Mm)
    → virt < 2 ^ 32
    → a / 4096 ≡ virt / 4096
    → is_present (mm.page_directory (pde_index virt)) ≡ true
    → (mm' : Mm) × (vmm_map_page virt virt 3 mm ≡ some mm') × (vmm_check_identity_page mm' a ≡ true)
unfolding vmm_map_page vmm_check_identity_page
vmm_map_page-identity virt a mm word same table =
    let pd : pde_index a ≡ pde_index virt = omega arith in
    let pt : pte_index a ≡ pte_index virt = omega arith in
    let entry : ℕ = make_entry virt 3 in
    let back : frame entry + a % 4096 ≡ a = omega arith in
    let on : is_present entry ≡ true = ground arith in
    let equal : (frame entry + a % 4096 == a) ≡ true = ground (arith, back) in
    let t : ℕ = frame (mm.page_directory (pde_index virt)) in
    let found = write_entry_self mm.page_tables t (pte_index virt) entry in
    (
      record mm {
        page_tables =
            write_entry mm.page_tables (frame (mm.page_directory (pde_index virt))) (pte_index virt)
              entry;
      },
      rw table,
      rw (pd, pt, table, found, on) equal,
    )
