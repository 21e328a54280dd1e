-- ===== src/Startup/Signal.antt =====
-- sidpiserver/src/sidpiserver.c: SIGINT, whose handler `signal_callback_handler` frees the buffers of `main` and exits, at
-- each point of `main` from its installation on.
use sid_pi.Base.{
  ◌≡◌, ◌≢◌, refl, arith, Bool, true, false, ◌&&◌, Option, none, some, List, [], ◌∷◌, if◌then◌else◌,
  ◌↔◌,
}
use sid_pi.Startup.{Machine}

-- What a global that points to a buffer holds.
pub data Pointer : Type 0 where
  null live dangling : Pointer

-- `dataRead` and `dataWrite`
pub record Buffers : Type 0 where
  pub read_at : Pointer
  pub write_at : Pointer

abbrev pub malloc : Bool → Pointer
malloc given = if given then live else null

-- `free`, or none where the block has been freed before
abbrev pub free : Pointer → Option Pointer
free null = some null
free live = some dangling
free dangling = none

abbrev left_by : Pointer → Pointer
left_by null = null
left_by live = dangling
left_by dangling = dangling

-- The buffers at each point, from `signal(SIGINT, ...)` to where `main` returns for want of memory, or to where it has
-- both for the rest of its run.
unfoldable pub buffers_of : Machine → List Buffers
buffers_of m =
    let read = malloc m.read_buffer in
    let write = malloc m.write_buffer in
    record { read_at = null; write_at = null }
    ∷ record { read_at = read; write_at = null }
    ∷ record { read_at = read; write_at = write }
    ∷ (if m.read_buffer && m.write_buffer
        then []
        else record { read_at = left_by read; write_at = write }
          ∷ record { read_at = left_by read; write_at = left_by write }
          ∷ [])

-- `signal_callback_handler` up to its `exit(signum)`, or none where it frees a block twice
unfoldable pub signal_callback_handler : Buffers → Option Buffers
signal_callback_handler b = elim (free b.read_at) [
  | none ↦ none
  | some read ↦ elim (free b.write_at) [
    | none ↦ none
    | some write ↦ some (record { read_at = read; write_at = write })
  ]
]

-- The handler comes to its `exit` with no block in use.
abbrev pub Clean : Option Buffers → Type 0
Clean none = ⊥
Clean (some b) = (b.read_at ≢ live) × (b.write_at ≢ live)

abbrev pub AllClean : List Buffers → Type 0
AllClean [] = Unit {0}
AllClean (b ∷ bs) = Clean (signal_callback_handler b) × AllClean bs

clean_by :
    (m : Machine) (r w : Bool)
    → AllClean (buffers_of (record m { read_buffer = r; write_buffer = w })) ↔ (r ≡ w)
unfolding buffers_of signal_callback_handler
clean_by m true true = (λ h. refl, λ e. ground arith)
clean_by m false false = (λ h. refl, λ e. ground arith)
clean_by m true false = (λ h. absurd (h.1.1.1.0), λ e. absurd (cc))
clean_by m false true = (λ h. absurd (h.1.1.1.1.0), λ e. absurd (cc))

-- SIGINT frees each buffer once, at whatever point of `main` it comes, exactly if `malloc` gives both or neither: where
-- one of the two is refused, `main` frees the other, and a signal before it has returned has the handler free that again.
pub signal-AllClean : (m : Machine) → AllClean (buffers_of m) ↔ (m.read_buffer ≡ m.write_buffer)
signal-AllClean m = clean_by m m.read_buffer m.write_buffer
