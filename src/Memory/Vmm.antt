-- ===== src/Memory/Vmm.antt =====
-- `vmm_map_page` and the identity checks of src/lib/memory.c.
pub mod Mapping
use tbs_kernel.Memory.Pmm.{pmm_alloc_page}
use tbs_kernel.Base.{
  ℕ, zero, suc, ◌+◌, ◌*◌, ◌/◌, ◌%◌, ◌^◌, Bool, true, false, not, ◌&&◌, Option, none, some, ltb,
  ◌==◌, if◌then◌else◌, ◌>>=◌,
}
use tbs_kernel.Memory.State.{Mm, update}

abbrev pub pde_index : ℕ → ℕ
pde_index v = v / 2 ^ 22 % 1024

abbrev pub pte_index : ℕ → ℕ
pte_index v = v / 2 ^ 12 % 1024

-- `entry & 0x1` and `entry & ~0xFFF`.
abbrev pub is_present : ℕ → Bool
is_present entry = entry % 2 == 1

abbrev pub frame : ℕ → ℕ
frame entry = entry / 4096 * 4096

-- `(phys & ~0xFFF) | (flags & 0xFFF)`
abbrev pub make_entry : ℕ → ℕ → ℕ
make_entry phys flags = frame phys + flags % 4096

abbrev pub write_entry : (ℕ → ℕ → ℕ) → ℕ → ℕ → ℕ → ℕ → ℕ → ℕ
write_entry tables table idx entry = update tables table (update (tables table) idx entry)

-- The frame behind the virtual page `0xFFC00000 + (pd_idx * 0x1000)`: its directory entry is the
-- last one, its table entry is number `pd_idx`. `none` is a page fault.
window : Mm → ℕ → Option ℕ
window mm pd_idx =
    let pde = mm.page_directory 1023 in
    let pte = mm.page_tables (frame pde) pd_idx in
    if is_present pde && is_present pte then some (frame pte) else none

-- `none`: the loop `for (;;)` after a failed allocation, or a page fault. The new table is cleared
-- and filled through the window, before and after its directory entry is written.
unfoldable pub vmm_map_page : ℕ → ℕ → ℕ → Mm → Option Mm
unfolding window
vmm_map_page virt phys flags mm =
    let pd_idx = pde_index virt in
    let pt_idx = pte_index virt in
    let pde = mm.page_directory pd_idx in
    let entry = make_entry phys flags in
    if not (is_present pde)
    then (let (pmm', pt_phys) = pmm_alloc_page mm.pmm in
        if pt_phys == 0 then none else do
          pt ← window mm pd_idx
          some (record mm {
            pmm = pmm';
            page_directory = update mm.page_directory pd_idx (make_entry pt_phys 3);
            page_tables = write_entry (update mm.page_tables pt (λ _. 0)) pt pt_idx entry;
          }))
    else some (record mm { page_tables = write_entry mm.page_tables (frame pde) pt_idx entry })

unfoldable pub vmm_check_identity_page : Mm → ℕ → Bool
vmm_check_identity_page mm addr =
    let pde = mm.page_directory (pde_index addr) in
    let pte = mm.page_tables (frame pde) (pte_index addr) in
    if not (is_present pde)
    then false
    else if not (is_present pte)
    then false
    else frame pte + addr % 4096 == addr

-- `for (a = start; a < end; a += PAGE_SIZE)`, by the rounds left; the sum wraps.
check_range : Mm → ℕ → ℕ → ℕ → Option Bool
check_range mm zero a end_of = none
check_range mm (suc left) a end_of =
    let rest = check_range mm left ((a + 4096) % 2 ^ 32) end_of in
    if ltb a end_of then (if vmm_check_identity_page mm a then rest else some false) else some true

-- Enough rounds for any range that ends below the last page of the address space; above it the
-- loop can go round for ever.
unfoldable pub vmm_check_identity_range : Mm → ℕ → ℕ → Option Bool
unfolding check_range
vmm_check_identity_range mm start end_of = check_range mm (2 ^ 20 + 1) start end_of
