-- ===== src/Intc/Init.antt =====
-- Initialisation from the device tree and from ACPI, and the interrupt entry.
use spacemit_xenomai.Base.{
  ℕ, ◌≡◌, ◌≢◌, refl, ap, inl, inr, Bool, true, false, not, Bool-cases, Option-cases, Option, none,
  some, List, ◌∷◌, arith, ◌==◌, ==_iff, ltb, if◌then◌else◌, ℕ_discrete, signed32, neg32,
}
use spacemit_xenomai.Intc.{Chip, riscv_intc_chip, andes_intc_chip, Limits}

abbrev pub enxio : ℕ
enxio = 6

abbrev pub enomem : ℕ
enomem = 12

-- What the driver leaves behind: its static variables, the handler and the hardware node function
-- that it has set, and the nodes that it has marked or freed.
pub record Driver : Type 0 where
  pub limits : Limits
  pub intc_domain : Option ℕ
  pub chip : Option Chip
  pub handler_set : Bool
  pub hwnode_set : Bool
  pub initialized : List ℕ
  pub freed : List ℕ

-- The answers of the kernel during one call: `create_tree` of `irq_domain_create_tree` for a
-- firmware node, `set_handle_irq` with its error code, `parent_hartid` of a device node with its
-- result, `hartid_to_cpuid`, the CPU that runs, `is_andes` of `of_device_is_compatible` for the
-- Andes controller, `to_fwnode` of a device node, and `alloc_fwnode` of ACPI's named node.
pub record Host : Type 0 where
  pub create_tree : ℕ → Option ℕ
  pub set_handle_irq : ℕ
  pub parent_hartid : ℕ → ℕ × ℕ
  pub hartid_to_cpuid : ℕ → ℕ
  pub processor_id : ℕ
  pub is_andes : ℕ → Bool
  pub to_fwnode : ℕ → ℕ
  pub alloc_fwnode : Option ℕ

module _ (host : Host) where
  unfoldable pub init_common : ℕ → Chip → Driver → Driver × ℕ
  init_common fwnode chip d = elim (host.create_tree fwnode) [
    | none ↦ (record d { intc_domain = none }, neg32 enxio)
    | some domain ↦
        let d' = record d { intc_domain = some domain; chip = some chip } in
        if not (host.set_handle_irq == 0)
        then (d', host.set_handle_irq)
        else (record d' { handler_set = true; hwnode_set = true }, 0)
  ]

  -- `sli_base` and `andes_last` stand for ANDES_SLI_CAUSE_BASE and ANDES_RV_IRQ_LAST.
  unfoldable pub intc_init : ℕ → ℕ → ℕ → Driver → Driver × ℕ
  unfolding init_common
  intc_init sli_base andes_last node d =
      let (rc, hartid) = host.parent_hartid node in
      let fwnode = host.to_fwnode node in
      let andes = record d {
        limits = record d.limits { custom_base = sli_base; custom_nr_irqs = andes_last };
      } in
      if ltb (signed32 rc) (signed32 0)
      then (d, 0)
      else (if not (host.hartid_to_cpuid hartid == host.processor_id)
          then (record d { initialized = fwnode ∷ d.initialized }, 0)
          else (if host.is_andes node
              then init_common fwnode andes_intc_chip andes
              else init_common fwnode riscv_intc_chip d))

  unfoldable pub acpi_init : ℕ → Driver → Driver × ℕ
  unfolding init_common
  acpi_init hart_id d =
      if not (host.hartid_to_cpuid hart_id == host.processor_id)
      then (d, 0)
      else elim host.alloc_fwnode [
        | none ↦ (d, neg32 enomem)
        | some fwnode ↦
            let (d', rc) = init_common fwnode riscv_intc_chip d in
            if not (rc == 0) then (record d' { freed = fwnode ∷ d'.freed }, rc) else (d', rc)
      ]

  -- The hardware node that the kernel asks the driver for.
  unfoldable pub intc_hwnode : (ℕ → ℕ) → Driver → Option ℕ
  intc_hwnode fwnode_of d = elim d.intc_domain [
    | none ↦ none
    | some domain ↦ some (fwnode_of domain)
  ]

  -- The driver is at work: the domain is there, and the kernel has been told about it.
  abbrev pub IsUp : Driver → Type 0
  IsUp d = (d.intc_domain ≢ none) × (d.handler_set ≡ true) × (d.hwnode_set ≡ true)

  ==-ne : (a : ℕ) → a ≢ 0 → (a == 0) ≡ false
  ==-ne a n = ground arith

  ==-differ : (a b : ℕ) → a ≢ b → (a == b) ≡ false
  ==-differ a b n = ground arith

  -- The common part: at work with the chip where it returns 0, and no node freed.
  abbrev Outcome : Chip → Driver → Driver × ℕ → Type 0
  Outcome chip d r = (r.1 ≡ 0 → IsUp r.0 × (r.0.chip ≡ some chip)) × (r.0.freed ≡ d.freed)

  some-none : (a : ℕ) → some a ≢ none
  some-none a e = cc

  init_common-Outcome :
      (fwnode : ℕ) (chip : Chip) (d : Driver) → Outcome chip d (init_common fwnode chip d)
  unfolding init_common
  init_common-Outcome fwnode chip d = elim (Option-cases (host.create_tree fwnode)) [
    | inl e ↦ rw (e, init_common) ((λ z. absurd (omega arith)), refl)
    | inr (domain, e) ↦ elim (ℕ_discrete host.set_handle_irq 0) [
      | yes z ↦
          rw (e, (==_iff host.set_handle_irq 0).1 z, init_common)
            ((λ t. ((some-none domain, refl, refl), refl)), refl)
      | no n ↦ rw (e, ==-ne host.set_handle_irq n, init_common) ((λ z. absurd (n z)), refl)
    ]
  ]

  -- `riscv_intc_init` returns 0 for a hart that is not the one that runs, and then has only marked
  -- the node. For the hart that runs, if it returns 0, the driver is at work: with the Andes chip
  -- if the node is compatible with it, and else with the chip of RISC-V. It frees no node.
  pub intc_init_lem :
      (sli_base andes_last node : ℕ) (d : Driver)
      → (host.parent_hartid node).0 ≡ 0
      → let (d', rc) = intc_init sli_base andes_last node d in
        let hartid = (host.parent_hartid node).1 in
        (host.hartid_to_cpuid hartid ≢ host.processor_id
          → (rc ≡ 0) × (d' ≡ record d { initialized = host.to_fwnode node ∷ d.initialized }))
        × (host.hartid_to_cpuid hartid ≡ host.processor_id
            → (rc ≡ 0
                → IsUp d'
                  × (d'.chip
                      ≡ some (if host.is_andes node then andes_intc_chip else riscv_intc_chip)))
              × (d'.freed ≡ d.freed))
  unfolding intc_init
  intc_init_lem sli_base andes_last node d found = (
    (λ ne.
        rw
          (found, ==-differ (host.hartid_to_cpuid (host.parent_hartid node).1) host.processor_id ne)
          (refl, refl)),
    (λ e. elim (Bool-cases (host.is_andes node)) [
      | inl andes ↦
          rw
            (
              found,
              (==_iff (host.hartid_to_cpuid (host.parent_hartid node).1) host.processor_id).1 e,
              andes,
            )
            (init_common-Outcome (host.to_fwnode node) andes_intc_chip (record d {
              limits = record d.limits { custom_base = sli_base; custom_nr_irqs = andes_last };
            }))
      | inr plain ↦
          rw
            (
              found,
              (==_iff (host.hartid_to_cpuid (host.parent_hartid node).1) host.processor_id).1 e,
              plain,
            )
            (init_common-Outcome (host.to_fwnode node) riscv_intc_chip d)
    ]),
  )

  finished :
      (fwnode : ℕ) (d : Driver) (r : Driver × ℕ)
      → Outcome riscv_intc_chip d r
      → let res : Driver × ℕ =
          if not (r.1 == 0) then (record r.0 { freed = fwnode ∷ r.0.freed }, r.1) else (r.0, r.1) in
        (res.1 ≡ 0 → IsUp res.0 × (res.0.chip ≡ some riscv_intc_chip) × (res.0.freed ≡ d.freed))
        × (res.1 ≢ 0 → res.0.freed ≡ fwnode ∷ d.freed)
  finished fwnode d r o = elim (ℕ_discrete r.1 0) [
    | yes z ↦ rw ((==_iff r.1 0).1 z) ((λ t. ((o.0 z).0, (o.0 z).1, o.1)), (λ n. absurd (n z)))
    | no n ↦ rw (==-ne r.1 n) ((λ z. absurd (n z)), (λ t. ap (λ l. fwnode ∷ l) o.1))
  ]

  -- `riscv_intc_acpi_init` changes nothing for a hart that is not the one that runs. For the hart
  -- that runs: without a named node it returns -ENOMEM and changes nothing; with one, if it returns
  -- 0, the driver is at work with the chip of RISC-V and no node is freed, and if it returns an
  -- error, the node that it allocated is freed, and no other.
  pub acpi_init_lem :
      (hart_id : ℕ) (d : Driver)
      → let (d', rc) = acpi_init hart_id d in
        (host.hartid_to_cpuid hart_id ≢ host.processor_id → (rc ≡ 0) × (d' ≡ d))
        × (host.hartid_to_cpuid hart_id ≡ host.processor_id
            → (host.alloc_fwnode ≡ none → (rc ≡ neg32 enomem) × (d' ≡ d))
              × ((fwnode : ℕ)
                  → host.alloc_fwnode ≡ some fwnode
                  → (rc ≡ 0 → IsUp d' × (d'.chip ≡ some riscv_intc_chip) × (d'.freed ≡ d.freed))
                    × (rc ≢ 0 → d'.freed ≡ fwnode ∷ d.freed)))
  unfolding acpi_init
  acpi_init_lem hart_id d = (
    (λ ne. rw (==-differ (host.hartid_to_cpuid hart_id) host.processor_id ne) (refl, refl)),
    (λ e. rw ((==_iff (host.hartid_to_cpuid hart_id) host.processor_id).1 e) (
      (λ a. rw a (refl, refl)),
      (λ fwnode a. rw a (finished fwnode d _ (init_common-Outcome fwnode riscv_intc_chip d))),
    )),
  )
