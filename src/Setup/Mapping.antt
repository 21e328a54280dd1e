-- ===== src/Setup/Mapping.antt =====
-- What the set-up has mapped, whichever way it ends.
use sid_pi.Base.{
  ◌≡◌, true, false, refl, sym, ap, ◌∙◌, arith, Bool-cases, inl, inr, List, ◌∷◌, ℤ, pos, negsuc, ◌⊎◌,
}
use sid_pi.Setup.{
  Peripheral, gpio, gpio_clock, gpio_timer, Held, descriptor, mapping, Fate, map_peripheral,
  unmap_peripheral, is_minus_one, Fates, mmap_rpi_devices,
}

-- A peripheral is mapped, and held by its descriptor.
abbrev pub both : Peripheral → List Held → List Held
both p held = mapping p ∷ descriptor p ∷ held

map_peripheral_lem :
    (p : Peripheral) (fate : Fate) (held : List Held)
    → (map_peripheral p fate held ≡ (pos 0, both p held))
      ⊎ (map_peripheral p fate held ≡ (negsuc 0, held))
unfolding map_peripheral
map_peripheral_lem p fate held = elim (Bool-cases fate.opened) [
  | inr e ↦ rw e (inr refl)
  | inl e ↦ elim (Bool-cases fate.mapped) [
    | inr e1 ↦ rw (e, e1) (inr refl)
    | inl e1 ↦ rw (e, e1) (inl refl)
  ]
]

-- What is held when `mmapRPIDevices` returns.
abbrev pub Mapped : List Held → ℤ × List Held → Type 0
Mapped held (pos n, held') = (n ≡ 0) × (held' ≡ both gpio_timer (both gpio_clock (both gpio held)))
Mapped held (negsuc n, held') =
    (n ≡ 0)
    × ((held' ≡ held) ⊎ (held' ≡ both gpio held) ⊎ (held' ≡ both gpio_clock (both gpio held)))

-- `mmapRPIDevices` returns 0 with the three peripherals mapped, or -1 with those mapped that came before the
-- one that failed; of that one it leaves no descriptor open.
pub mmap_rpi_devices-Mapped :
    (fates : Fates) (held : List Held) → Mapped held (mmap_rpi_devices fates held)
unfolding mmap_rpi_devices
mmap_rpi_devices-Mapped fates held = elim (map_peripheral_lem gpio fates.of_gpio held) [
  | inr e ↦ rw e (refl, inl refl)
  | inl e ↦ elim (map_peripheral_lem gpio_clock fates.of_clock (both gpio held)) [
    | inr e1 ↦ rw (e, e1) (refl, inr (inl refl))
    | inl e1 ↦
        elim (map_peripheral_lem gpio_timer fates.of_timer (both gpio_clock (both gpio held))) [
          | inr e2 ↦ rw (e, e1, e2) (refl, inr (inr refl))
          | inl e2 ↦ rw (e, e1, e2) (refl, refl)
        ]
  ]
]

unmap_both : (p : Peripheral) (held : List Held) → unmap_peripheral p (both p held) ≡ held
unfolding unmap_peripheral
unmap_both gpio held = refl
unmap_both gpio_clock held = refl
unmap_both gpio_timer held = refl

-- A peripheral that has been mapped can be unmapped again, with nothing left over.
pub unmap-map_peripheral :
    (p : Peripheral) (fate : Fate) (held : List Held)
    → (map_peripheral p fate held).0 ≡ pos 0
    → unmap_peripheral p (map_peripheral p fate held).1 ≡ held
unmap-map_peripheral p fate held e = elim (map_peripheral_lem p fate held) [
  | inl done ↦ ap (λ x. unmap_peripheral p x.1) done ∙ unmap_both p held
  | inr failed ↦
      let same : true ≡ false = ap is_minus_one (sym (ap (λ x. x.0) failed) ∙ e) in
      absurd (ground arith)
]
