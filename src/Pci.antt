-- ===== src/Pci.antt =====
-- src/kernel/drivers/pci.c: the configuration addresses and the walk over the bus. The reads of
-- the ports are a function of the address, an argument here; the prints are the list of what they
-- name. The table of class names is left out.
use tbs_kernel.Base.{
  ℕ, zero, suc, ◌+◌, ◌-◌, ◌*◌, ◌/◌, ◌%◌, ◌^◌, ◌≤◌, ◌<◌, ◌≡◌, refl, sym, ap, ap₂, ◌∙◌, ◌≢◌, ◌↔◌, ◌⊎◌,
  inl, inr, Bool, true, false, not, ◌&&◌, ◌||◌, Option, none, some, List, [], ◌∷◌, ◌++◌, append-nil,
  append_assoc, arith, dec_lt, ℕ_discrete, ltb, leb, ◌==◌, if◌then◌else◌, ltb→lt, lt→ltb, ==_iff,
  Bool-cases, Option-cases, length, get_elem?, get_or, set, take, drop, replicate, length-append,
  length-set, get_or-set_self, get_or-set_ne, ◌>>=◌, All, All-append,
}
pub mod Scan

-- `|` of the fields: a device below 32 and a function below 8 share no bit with the rest.
unfoldable pub pci_config_address : ℕ → ℕ → ℕ → ℕ → ℕ
pci_config_address bus device func offset =
    2 ^ 31 + bus * 2 ^ 16 + device * 2 ^ 11 + func * 2 ^ 8 + offset / 4 * 4

-- A function that was found: its bus, device and number, and its two registers.
pub record PciFunction : Type 0 where
  pub bus : ℕ
  pub device : ℕ
  pub func : ℕ
  pub vendor : ℕ
  pub device_id : ℕ
  pub class_code : ℕ
  pub subclass : ℕ

-- `for (i = first; n more times; i++)`, with what each round finds.
unfoldable pub collect {ℓ} : {B : Type ℓ} → ℕ → ℕ → (ℕ → List B) → List B
collect zero i found = []
collect (suc n) i found = found i ++ collect n (i + 1) found

module _ (inl_port : ℕ → ℕ) where
  unfoldable pub pci_config_read : ℕ → ℕ → ℕ → ℕ → ℕ
  unfolding pci_config_address
  pci_config_read bus device func offset = inl_port (pci_config_address bus device func offset)

  abbrev pub vendor_of : ℕ → ℕ → ℕ → ℕ
  unfolding pci_config_read
  vendor_of bus device func = pci_config_read bus device func 0 % 2 ^ 16

  unfoldable pub pci_read_function : ℕ → ℕ → ℕ → PciFunction
  unfolding pci_config_read
  pci_read_function bus device func =
      let data2 = pci_config_read bus device func 0 in
      let classreg = pci_config_read bus device func 8 in
      record {
        bus = bus;
        device = device;
        func = func;
        vendor = data2 % 2 ^ 16;
        device_id = data2 / 2 ^ 16 % 2 ^ 16;
        class_code = classreg / 2 ^ 24 % 2 ^ 8;
        subclass = classreg / 2 ^ 16 % 2 ^ 8;
      }

  unfoldable pub pci_function : ℕ → ℕ → ℕ → List PciFunction
  unfolding pci_read_function
  pci_function bus device func =
      let found = pci_read_function bus device func in
      if found.vendor == 0xFFFF then [] else found ∷ []

  -- Bit 7 of the header type.
  abbrev pub is_multifunction : ℕ → ℕ → Bool
  unfolding pci_config_read
  is_multifunction bus device = pci_config_read bus device 0 12 / 2 ^ 16 % 2 ^ 8 / 2 ^ 7 == 1

  unfoldable pub pci_device : ℕ → ℕ → List PciFunction
  unfolding collect pci_function vendor_of is_multifunction
  pci_device bus device =
      let maxfunc = if is_multifunction bus device then 7 else 0 in
      if vendor_of bus device 0 == 0xFFFF
      then []
      else collect (maxfunc + 1) 0 (pci_function bus device)

  -- The two outer loops.
  unfoldable pub pci_walk : ℕ → ℕ → List PciFunction
  unfolding collect
  pci_walk buses devices = collect buses 0 (λ bus. collect devices 0 (pci_device bus))

  unfoldable pub pci_enumerate : List PciFunction
  pci_enumerate = pci_walk 256 32
