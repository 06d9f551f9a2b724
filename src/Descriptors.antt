-- ===== src/Descriptors.antt =====
-- The entries of the processor's tables: `gdt_set_gate` and `GDT_install` of
-- src/arch/i686/kernel/GDT.c, `IDT_SET` and the interrupt dispatch of src/arch/i686/kernel/IDT.c.
-- Loading a table is left out. `|` of parts that share no bit is a sum.
use tbs_kernel.Base.{
  ℕ, zero, suc, ◌+◌, ◌-◌, ◌*◌, ◌/◌, ◌%◌, ◌^◌, ◌≤◌, ◌<◌, ◌≡◌, refl, sym, ap, ap₂, ◌∙◌, ◌≢◌, ◌↔◌, ◌⊎◌,
  inl, inr, Bool, true, false, not, ◌&&◌, ◌||◌, Option, none, some, List, [], ◌∷◌, ◌++◌, append-nil,
  append_assoc, arith, dec_lt, ℕ_discrete, ltb, leb, ◌==◌, if◌then◌else◌, ltb→lt, lt→ltb, ==_iff,
  Bool-cases, Option-cases, length, get_elem?, get_or, set, take, drop, replicate, length-append,
  length-set, get_or-set_self, get_or-set_ne, ◌>>=◌, All, All-append,
}
pub mod Fields

-- `struct gdt_entry`
pub record GdtEntry : Type 0 where
  pub limit_low : ℕ
  pub base_low : ℕ
  pub base_middle : ℕ
  pub access : ℕ
  pub granularity : ℕ
  pub base_high : ℕ

unfoldable pub gdt_set_gate : ℕ → ℕ → ℕ → ℕ → GdtEntry
gdt_set_gate base limit access gran = record {
  limit_low = limit % 2 ^ 16;
  base_low = base % 2 ^ 16;
  base_middle = base / 2 ^ 16 % 2 ^ 8;
  access = access;
  granularity = limit / 2 ^ 16 % 2 ^ 4 + gran / 2 ^ 4 % 2 ^ 4 * 2 ^ 4;
  base_high = base / 2 ^ 24 % 2 ^ 8;
}

-- The three entries, and the limit of the table.
unfoldable pub gdt_install : List GdtEntry × ℕ
unfolding gdt_set_gate
gdt_install = (
  gdt_set_gate 0 0 0 0 ∷ gdt_set_gate 0 0xF_FFFF 0x9A 0xCF ∷ gdt_set_gate 0 0xF_FFFF 0x92 0xCF ∷ [],
  8 * 3 - 1,
)

-- `IDT_ENTRY`
pub record IdtEntry : Type 0 where
  pub offset_1 : ℕ
  pub selector : ℕ
  pub zero_byte : ℕ
  pub type : ℕ
  pub offset_2 : ℕ

abbrev pub interrupt_gate : ℕ
interrupt_gate = 0x8E

unfoldable pub idt_set : ℕ → ℕ → IdtEntry
idt_set handler type = record {
  offset_1 = handler % 2 ^ 16;
  selector = 0x08;
  zero_byte = 0;
  type = type;
  offset_2 = handler / 2 ^ 16 % 2 ^ 16;
}

-- What an interrupt of the devices does: the handlers that run, and the writes to the ports.
pub data IrqAction : Type 0 where
  keyboard_irq mouse_irq : IrqAction
  outb : ℕ → ℕ → IrqAction

unfoldable pub send_eoi : ℕ → List IrqAction
send_eoi irq = if leb 8 irq then outb 0xA0 0x20 ∷ outb 0x20 0x20 ∷ [] else outb 0x20 0x20 ∷ []

unfoldable pub irq_common_handler : ℕ → List IrqAction
unfolding send_eoi
irq_common_handler irq =
    if irq == 1
    then keyboard_irq ∷ send_eoi irq
    else if irq == 12
    then mouse_irq ∷ send_eoi irq
    else send_eoi irq
