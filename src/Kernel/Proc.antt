-- ===== src/Kernel/Proc.antt =====
-- module/src/sidpi.c: what /proc/sidpi shows of the module.
use Prim.Native.String.{String}
use text.Mathlib.Text
use sid_pi.Base.{ℕ, zero, suc, ◌==◌, ◌≡◌, refl, Bool, true, false, List, [], ◌∷◌, if◌then◌else◌}

-- `sid_proc_show`, by its lines, of `sidPiInterfaceType`, `piVersion` and `speedfix`
unfoldable pub sid_proc_show : ℕ → ℕ → ℕ → List String
sid_proc_show interface version speedfix =
    "SIDPi module version 0.1 by Jamie Nuttall"
    ∷ (if interface == 0 then "Interface : Parallel" else "Interface : Serial")
    ∷ (if version == 1 then "Pi Type is : Pi2" else "Pi Type is : Pi1")
    ∷ (if speedfix == 1 then "Speed fix is On" else "Speed fix is Off")
    ∷ []

-- The text tells the settings.
abbrev pub line_is : ℕ → String → List String → Bool
line_is n text [] = false
line_is zero text (line ∷ lines) = Text.◌==◌ line text
line_is (suc n) text (line ∷ lines) = line_is n text lines

-- Each line of /proc/sidpi tells a setting: the interface is shown as parallel exactly for 0, the Pi as a Pi 2 exactly
-- for version 1, and the speed fix as on exactly for 1.
pub sid_proc_show_lem :
    (interface version speedfix : ℕ)
    → let shown = sid_proc_show interface version speedfix in
      (line_is 1 "Interface : Parallel" shown ≡ (interface == 0))
      × (line_is 2 "Pi Type is : Pi2" shown ≡ (version == 1))
      × (line_is 3 "Speed fix is On" shown ≡ (speedfix == 1))
unfolding sid_proc_show
sid_proc_show_lem interface version speedfix = (
  shown (interface == 0) _ _ refl refl,
  shown (version == 1) _ _ refl refl,
  shown (speedfix == 1) _ _ refl refl,
)
  where
    shown :
        (b : Bool) (yes_text no_text : String)
        → Text.◌==◌ yes_text yes_text ≡ true
        → Text.◌==◌ no_text yes_text ≡ false
        → Text.◌==◌ (if b then yes_text else no_text) yes_text ≡ b
    shown true t u e e' = e
    shown false t u e e' = e'
