-- ===== src/Pci/Scan.antt =====
-- What the walk of src/kernel/drivers/pci.c finds.
use tbs_kernel.Pci.{
  pci_config_address, collect, vendor_of, pci_enumerate, pci_config_read, pci_device, PciFunction,
  pci_function, is_multifunction, pci_walk, pci_read_function,
}
use tbs_kernel.Base.{
  ℕ, zero, suc, ◌+◌, ◌/◌, ◌≤◌, ◌<◌, ◌≡◌, refl, ◌≢◌, ◌⊎◌, inl, inr, true, false, List, arith, ◌==◌,
  ==_iff, Bool-cases, All, All-append, In, In-append_left, In-append_right,
}

-- Two configuration registers with the same address are the same register.
pub pci_config_address-injective :
    (bus device func offset bus' device' func' offset' : ℕ)
    → (device < 32) × (func < 8) × (offset < 256)
    → (device' < 32) × (func' < 8) × (offset' < 256)
    → pci_config_address bus device func offset ≡ pci_config_address bus' device' func' offset'
    → (bus ≡ bus') × (device ≡ device') × (func ≡ func') × (offset / 4 ≡ offset' / 4)
unfolding pci_config_address
pci_config_address-injective bus device func offset bus' device' func' offset' (d, f, o)
      (d', f', o') h =
    (omega arith, omega arith, omega arith, omega arith)

In-collect :
    {B : Type 0} (x : B) (n i k : ℕ) (found : ℕ → List B)
    → i ≤ k
    → k < i + n
    → In x (found k)
    → In x (collect n i found)
unfolding collect
In-collect x zero i k found low high h = absurd (omega (arith, low, high))
In-collect x (suc n) i k found low high h = elim (Bool-cases (i == k)) [
  | inl e ↦ In-append_left x (found i) _ (rw ((==_iff i k).0 e) h)
  | inr e ↦
      let after : i + 1 ≤ k = ground (arith, e, low) in
      In-append_right x (found i) _ (In-collect x n (i + 1) k found after (omega (arith, high)) h)
]

All-collect {ℓ κ} :
    {B : Type ℓ} (P : B → Type κ) (n i : ℕ) (found : ℕ → List B)
    → ((k : ℕ) → i ≤ k → k < i + n → All P (found k))
    → All P (collect n i found)
unfolding collect
All-collect P zero i found h = _
All-collect P (suc n) i found h =
    All-append P (found i) (collect n (i + 1) found) (h i (omega arith) (omega arith))
      (All-collect P n (i + 1) found (λ k low high. h k (omega (arith, low)) (omega (arith, high))))

not_equal : (a b : ℕ) → (a == b) ≡ false → a ≢ b
not_equal a b h = ground arith

equal_not : (a b : ℕ) → a ≢ b → (a == b) ≡ false
equal_not a b h = ground arith

module _ (inl_port : ℕ → ℕ) where
  -- What is true of every function that the walk lists.
  abbrev pub IsPresent : PciFunction → Type 0
  unfolding vendor_of pci_config_read
  IsPresent f =
      (f.bus < 256)
      × (f.device < 32)
      × (f.func < 8)
      × (f.vendor ≡ vendor_of inl_port f.bus f.device f.func)
      × (f.vendor ≢ 0xFFFF)
      × ((f.func ≡ 0) ⊎ (is_multifunction inl_port f.bus f.device ≡ true))

  pci_function-IsPresent :
      (bus device func : ℕ)
      → (bus < 256) × (device < 32) × (func < 8)
      → (func ≡ 0) ⊎ (is_multifunction inl_port bus device ≡ true)
      → All IsPresent (pci_function inl_port bus device func)
  unfolding pci_function vendor_of
  pci_function-IsPresent bus device func (hb, hd, hf) several =
      elim (Bool-cases (vendor_of inl_port bus device func == 0xFFFF)) [
        | inl absent ↦ rw absent _
        | inr there ↦ rw there (
          (hb, hd, hf, refl, not_equal (vendor_of inl_port bus device func) 0xFFFF there, several),
          _,
        )
      ]

  pci_device-IsPresent :
      (bus device : ℕ)
      → (bus < 256) × (device < 32)
      → All IsPresent (pci_device inl_port bus device)
  unfolding pci_device
  pci_device-IsPresent bus device (hb, hd) =
      elim (Bool-cases (vendor_of inl_port bus device 0 == 0xFFFF)) [
        | inl absent ↦ rw absent _
        | inr there ↦ elim (Bool-cases (is_multifunction inl_port bus device)) [
          | inl many ↦
              rw (there, many)
                (All-collect IsPresent 8 0 (pci_function inl_port bus device) (λ func _ hf.
                  pci_function-IsPresent bus device func (hb, hd, omega (arith, hf)) (inr many)))
          | inr one ↦
              rw (there, one)
                (All-collect IsPresent 1 0 (pci_function inl_port bus device) (λ func _ hf.
                  pci_function-IsPresent bus device func (hb, hd, omega (arith, hf))
                    (inl (omega (arith, hf)))))
        ]
      ]

  pci_walk-IsPresent :
      (buses devices : ℕ)
      → (buses ≤ 256) × (devices ≤ 32)
      → All IsPresent (pci_walk inl_port buses devices)
  unfolding pci_walk
  pci_walk-IsPresent buses devices (hb, hd) =
      All-collect IsPresent buses 0 (λ bus. collect devices 0 (pci_device inl_port bus))
        (λ bus _ lb. All-collect IsPresent devices 0 (pci_device inl_port bus) (λ device _ ld.
          pci_device-IsPresent bus device (omega (arith, lb, hb), omega (arith, ld, hd))))

  pci_function-In :
      (bus device func : ℕ)
      → vendor_of inl_port bus device func ≢ 0xFFFF
      → (f : PciFunction) × In f (pci_function inl_port bus device func)
        × (f.bus ≡ bus)
        × (f.device ≡ device)
        × (f.func ≡ func)
  unfolding pci_function vendor_of
  pci_function-In bus device func v =
      let there = equal_not (vendor_of inl_port bus device func) 0xFFFF v in
      let found = pci_read_function inl_port bus device func in
      (found, rw there (inl refl), refl, refl, refl)

  pci_device-In :
      (bus device func : ℕ)
      → func < 8
      → vendor_of inl_port bus device 0 ≢ 0xFFFF
      → vendor_of inl_port bus device func ≢ 0xFFFF
      → (func ≡ 0) ⊎ (is_multifunction inl_port bus device ≡ true)
      → (f : PciFunction) × In f (pci_device inl_port bus device)
        × (f.bus ≡ bus)
        × (f.device ≡ device)
        × (f.func ≡ func)
  unfolding pci_device vendor_of
  pci_device-In bus device func hf v0 v several =
      let (f, there, b, d, n) = pci_function-In bus device func v in
      let first = equal_not (vendor_of inl_port bus device 0) 0xFFFF v0 in
      let listed : In f (pci_device inl_port bus device) =
        elim (Bool-cases (is_multifunction inl_port bus device)) [
          | inl many ↦
              rw (first, many)
                (In-collect f 8 0 func (pci_function inl_port bus device) (omega arith)
                  (omega (arith, hf)) there)
          | inr one ↦
              let only : func < 0 + 1 = elim several [
                | inl e ↦ omega (arith, e)
                | inr m ↦ absurd (ground (arith, m, one))
              ] in
              rw (first, one)
                (In-collect f 1 0 func (pci_function inl_port bus device) (omega arith) only there)
        ] in
      (f, listed, b, d, n)

  -- Every function that `pci_enumerate` lists answers with a vendor, and is function 0 or one of a
  -- device that has several. Every function that answers, on a device that answers as well, is
  -- listed, if it is function 0 or the device has several.
  pub pci_enumerate-IsPresent :
      All IsPresent (pci_enumerate inl_port)
      × ((bus device func : ℕ)
          → (bus < 256) × (device < 32) × (func < 8)
          → vendor_of inl_port bus device 0 ≢ 0xFFFF
          → vendor_of inl_port bus device func ≢ 0xFFFF
          → (func ≡ 0) ⊎ (is_multifunction inl_port bus device ≡ true)
          → (f : PciFunction) × In f (pci_enumerate inl_port)
            × (f.bus ≡ bus)
            × (f.device ≡ device)
            × (f.func ≡ func))
  unfolding pci_enumerate pci_walk
  pci_enumerate-IsPresent = (
    pci_walk-IsPresent 256 32 (omega arith, omega arith),
    λ bus device func (hb, hd, hf) v0 v several.
        let (f, there, b, d, n) = pci_device-In bus device func hf v0 v several in
        (
          f,
          In-collect f 256 0 bus (λ bus. collect 32 0 (pci_device inl_port bus)) (omega arith)
              (omega (arith, hb))
              (In-collect f 32 0 device (pci_device inl_port bus) (omega arith) (omega (arith, hd))
                there),
          b,
          d,
          n,
        ),
  )
