-- ===== src/Fifo/Spec.antt =====
-- What fifo.h promises: a queue of bytes, oldest first, that holds at most `cap` of them.
use sid_pi.Base.{ℕ, ◌+◌, Bool, List, [], ◌∷◌, ◌++◌, ℤ, pos, negsuc, ◌==◌, if◌then◌else◌, length, u8}

-- the calls of fifo.h on an initialised FIFO
pub data Op : Type 0 where
  read : Op
  write : ℕ → Op
  ask_count ask_empty ask_full ask_size reset : Op

abbrev pub Reply : Type 0
Reply = ℤ

unfoldable pub read_byte : List ℕ → Reply × List ℕ
read_byte [] = (negsuc 0, [])
read_byte (x ∷ q) = (pos x, q)

unfoldable pub write_byte : ℕ → List ℕ → ℕ → Reply × List ℕ
write_byte cap q byte =
    if length q == cap then (negsuc 0, q) else (pos (length q + 1), q ++ (u8 byte ∷ []))

abbrev flag : Bool → ℤ
flag b = if b then pos 1 else pos 0

unfoldable pub call : ℕ → List ℕ → Op → Reply × List ℕ
unfolding read_byte write_byte
call cap q read = read_byte q
call cap q (write byte) = write_byte cap q byte
call cap q ask_count = (pos (length q), q)
call cap q ask_empty = (flag (length q == 0), q)
call cap q ask_full = (flag (length q == cap), q)
call cap q ask_size = (pos cap, q)
call cap q reset = (pos 0, [])

unfoldable pub run : ℕ → List ℕ → List Op → List Reply
run cap q [] = []
run cap q (op ∷ ops) = let (reply, q') = call cap q op in reply ∷ run cap q' ops
