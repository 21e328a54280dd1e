-- ===== src/Kernel/Life/Unload.antt =====
-- The order in which the module is taken down.
use sid_pi.Base.{◌≡◌, refl, subst, arith, Bool, true, false, ◌||◌, List, [], ◌∷◌, ◌==◌}
use sid_pi.Kernel.Load.{
  Resource, proc_entry, chrdev, sid_class, sid_device, thread, gpio_region, gpio_map, clock_region,
  clock_map, timer_region, timer_map, index, release, Grants, success, init_module, cleanup_order,
  cleanup_module,
}

abbrev pub is_held : Resource → List Resource → Bool
is_held r [] = false
is_held r (q ∷ qs) = (index q == index r) || is_held r qs

-- `r` is not held without `q`.
abbrev pub Needs : Resource → Resource → List Resource → Type 0
Needs r q held = is_held r held ≡ true → is_held q held ≡ true

-- What uses something else is not held without it.
pub record IsSound (held : List Resource) : Type 0 where
  pub thread_gpio : Needs thread gpio_map held
  pub thread_clock : Needs thread clock_map held
  pub thread_timer : Needs thread timer_map held
  pub gpio : Needs gpio_map gpio_region held
  pub clock : Needs clock_map clock_region held
  pub timer : Needs timer_map timer_region held
  pub device : Needs sid_device sid_class held
  pub class_registered : Needs sid_class chrdev held

-- Sound before, between and after the calls that give these back.
abbrev pub SoundThrough : List Resource → List Resource → Type 0
SoundThrough [] held = IsSound held
SoundThrough (r ∷ rs) held = IsSound held × SoundThrough rs (release r held)

-- what a load that succeeds holds
abbrev all_held : List Resource
all_held =
    thread ∷ timer_map ∷ timer_region ∷ clock_map ∷ clock_region ∷ gpio_map ∷ gpio_region
    ∷ sid_device ∷ sid_class ∷ chrdev ∷ proc_entry ∷ []

success_held :
    (g : Grants) (held : List Resource) → init_module g ≡ (success, held) → all_held ≡ held
unfolding init_module
success_held g held e = ground arith

sound_through : SoundThrough cleanup_order all_held
sound_through = ground arith

-- Unloading takes nothing away that is in use: after a load that has succeeded, at each point of `_sid_cleanup_module` the
-- thread is not there without the three mappings that it may write to, no mapping without its region, and the
-- device not without its class nor the class without the registration; and at the end nothing is held.
pub unload_stays_sound :
    (g : Grants) (held : List Resource)
    → init_module g ≡ (success, held)
    → SoundThrough cleanup_order held × (cleanup_module held ≡ [])
unfolding cleanup_module
unload_stays_sound g held e =
    subst (λ h. SoundThrough cleanup_order h × (cleanup_module h ≡ [])) (success_held g held e)
      (sound_through, refl)
