-- ===== src/Kernel/Play.antt =====
-- A list of commands on its way through the driver.
use sid_pi.Base.{
  ℕ, ◌+◌, ◌*◌, ◌≤◌, ◌<◌, ◌≡◌, ◌≢◌, refl, ap, ap₂, ◌∙◌, arith, Bool, false, List, [], ◌∷◌, ◌++◌,
  length, map,
}
use sid_pi.Kernel.{Kfifo, Behaves, Driver, Deed, acts, told, slowed, thread_round}
use sid_pi.Kernel.Calls.{Fortune, answered, size, device_write}
use sid_pi.Kernel.Delay.{thread_round_lem}
use sid_pi.Kernel.Drift.{IsGranted, device_write_room}

-- A command as the device file takes it: the value, the register, and the cycles with the low byte first.
pub record Order : Type 0 where
  pub val : ℕ
  pub reg : ℕ
  pub low : ℕ
  pub high : ℕ

abbrev pub orders_bytes : List Order → List ℕ
orders_bytes [] = []
orders_bytes (c ∷ cs) = c.val ∷ c.reg ∷ c.low ∷ c.high ∷ orders_bytes cs

-- The bytes of the cycles are bytes.
abbrev pub CyclesFit : List Order → Type 0
CyclesFit [] = Unit {0}
CyclesFit (c ∷ cs) = ((c.low < 256) × (c.high < 256)) × CyclesFit cs

abbrev pub carried_out : Bool → Order → Deed
carried_out speedfix c = acts (slowed speedfix (c.high * 256 + c.low)) (told c.reg c.val)

length-orders_bytes : (cs : List Order) → length (orders_bytes cs) ≡ 4 * length cs
length-orders_bytes [] = refl
length-orders_bytes (c ∷ cs) = omega (arith, length-orders_bytes cs)

module _ {F : Type 0} (k : Kfifo F) (b : Behaves k) (speedfix : Bool) where
  open b use {contents}

  -- Rounds of the kernel thread, by what the stack holds in each, with what each does.
  abbrev pub deeds : List (List ℕ) → Driver F → List Deed × Driver F
  deeds [] d = ([], d)
  deeds (s ∷ ss) d =
      let (deed, d1) = thread_round k speedfix false s d in
      let (rest, d2) = deeds ss d1 in (deed ∷ rest, d2)

  deeds_lem :
      (cs : List Order) (ss : List (List ℕ)) (d : Driver F)
      → length ss ≡ length cs
      → CyclesFit cs
      → contents d.msg_fifo ≡ orders_bytes cs
      → ((deeds ss d).0 ≡ map (carried_out speedfix) cs) × (contents (deeds ss d).1.msg_fifo ≡ [])
  deeds_lem [] [] d n fit e = (refl, e)
  deeds_lem [] (s ∷ ss) d n fit e = absurd (omega (arith, n))
  deeds_lem (c ∷ cs) [] d n fit e = absurd (omega (arith, n))
  deeds_lem (c ∷ cs) (s ∷ ss) d n fit e =
      let (deed, left) =
        thread_round_lem k b speedfix false s d c.val c.reg c.low c.high (orders_bytes cs) e fit.0.0
          fit.0.1 in
      let (rest, none_left) =
        deeds_lem cs ss (thread_round k speedfix false s d).1 (omega (arith, n)) fit.1 left in
      (ap₂ (λ x xs. x ∷ xs) deed rest, none_left)

  -- Whole commands that one `device_write` puts into an empty FIFO.
  pub orders_written :
      (w : Fortune) (cs : List Order) (live : ℕ) (d : Driver F)
      → IsGranted w
      → cs ≢ []
      → length cs ≤ 2048
      → contents d.msg_fifo ≡ []
      → (d' : Driver F) × (device_write k speedfix w (orders_bytes cs) live d
          ≡ answered (size (4 * length cs)) live d')
        × (contents d'.msg_fifo ≡ orders_bytes cs)
  orders_written w [] live d granted some_of few empty = absurd (some_of refl)
  orders_written w (c ∷ cs) live d granted some_of few empty =
      let bytes = orders_bytes (c ∷ cs) in
      let all = length-orders_bytes (c ∷ cs) in
      let (d', done, inside, counted) =
        device_write_room k b speedfix w bytes live d granted
          (λ e. absurd (omega (arith, ap length e))) (omega (arith, all, ap length empty)) in
      (d', done ∙ ap (λ m. answered (size m) live d') all, inside ∙ ap (λ t. t ++ bytes) empty)

  -- Commands that one `device_write` takes are carried out in order, each once: with the FIFO empty, room for them all
  -- and no call going wrong, it returns the number of their bytes at once, and as many rounds of the kernel
  -- thread as commands wait the cycles of each and write its value to its register, if there is one, and leave the FIFO empty.
  pub device_write_plays :
      (w : Fortune) (cs : List Order) (live : ℕ) (d : Driver F) (ss : List (List ℕ))
      → IsGranted w
      → cs ≢ []
      → length cs ≤ 2048
      → CyclesFit cs
      → contents d.msg_fifo ≡ []
      → length ss ≡ length cs
      → (d' : Driver F) × (device_write k speedfix w (orders_bytes cs) live d
          ≡ answered (size (4 * length cs)) live d')
        × ((deeds ss d').0 ≡ map (carried_out speedfix) cs)
        × (contents (deeds ss d').1.msg_fifo ≡ [])
  device_write_plays w cs live d ss granted some_of few fit empty n =
      let (d', done, inside) = orders_written w cs live d granted some_of few empty in
      let (carried, none_left) = deeds_lem cs ss d' n fit inside in (d', done, carried, none_left)
