-- ===== src/Descriptors/Fields.antt =====
-- The fields that the processor puts together again from an entry of its tables.
use tbs_kernel.Descriptors.{GdtEntry, gdt_set_gate, idt_set}
use tbs_kernel.Base.{ℕ, ◌+◌, ◌*◌, ◌/◌, ◌%◌, ◌^◌, ◌<◌, ◌≡◌, refl, arith}

abbrev pub base_of : GdtEntry → ℕ
base_of e = e.base_low + e.base_middle * 2 ^ 16 + e.base_high * 2 ^ 24

abbrev pub limit_of : GdtEntry → ℕ
limit_of e = e.limit_low + e.granularity % 2 ^ 4 * 2 ^ 16

-- The processor reads from an entry of `gdt_set_gate` the base, the 20 bits of the limit, the access
-- byte and the four flags that it was given.
pub gdt_set_gate-fields :
    (base limit access gran : ℕ)
    → base < 2 ^ 32
    → limit < 2 ^ 20
    → gran < 2 ^ 8
    → let e = gdt_set_gate base limit access gran in
      (base_of e ≡ base)
      × (limit_of e ≡ limit)
      × (e.access ≡ access)
      × (e.granularity / 2 ^ 4 ≡ gran / 2 ^ 4)
unfolding gdt_set_gate
gdt_set_gate-fields base limit access gran hb hl hg = (omega arith, omega arith, refl, omega arith)

-- The handler's address is read back from an entry of `IDT_SET`, with the kernel's code segment.
pub idt_set-handler :
    (handler type : ℕ)
    → handler < 2 ^ 32
    → let e = idt_set handler type in
      (e.offset_1 + e.offset_2 * 2 ^ 16 ≡ handler) × (e.type ≡ type) × (e.selector ≡ 8)
unfolding idt_set
idt_set-handler handler type h = (omega arith, refl, refl)
