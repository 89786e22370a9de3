-- ===== src/Buffer/Close.antt =====
-- Who waits for whom, and what `Close` does to a side that sleeps.
use simq.Base.{ℕ, ◌+◌, ◌≤◌, ◌<◌, ◌≡◌, ◌↔◌, Bool, true, false, List, [], ◌∷◌, arith}
use simq.Buffer.{
  Buffer, eof, Progress, returned, failed, waits, Call, len, read, read_peek, read_wait,
  wait_for_write_space, wait_producer, close, read_commit, write,
}
use simq.Buffer.Run.{IsOpen}

-- A side that sleeps, as the result of its call shows.
abbrev pub Waits : {A : Type 0} → Call A → Type 0
Waits r = r.1 ≡ waits

read_wait-Waits : (b : Buffer) (n : ℕ) → IsOpen b → Waits (read_wait b n) → len b < n
unfolding read_wait
read_wait-Waits b n o h = ground (arith, o.open_eq, o.cfree, o.valid.cpos_le)

space-Waits :
    (b : Buffer) (n : ℕ) → IsOpen b → Waits (wait_for_write_space b n) → b.size < n + len b
unfolding wait_for_write_space
space-Waits b n o h = ground (arith, o.open_eq, o.pfree, o.valid.cpos_le, o.valid.gate_le)

Waits-read_wait : (b : Buffer) (n : ℕ) → IsOpen b → n ≤ b.size → len b < n → Waits (read_wait b n)
unfolding read_wait
Waits-read_wait b n o l h = ground (arith, o.open_eq, o.cfree, o.valid.cpos_le)

Waits-space :
    (b : Buffer) (n : ℕ) → IsOpen b → b.size < n + len b → Waits (wait_for_write_space b n)
unfolding wait_for_write_space
Waits-space b n o h = ground (arith, o.open_eq, o.pfree, o.valid.cpos_le, o.valid.gate_le)

-- On an open ring, a reader that asks for `n` bytes, no more than the ring holds, and a writer that
-- asks for room for `m` sleep both exactly if the ring has fewer than `n` bytes and less room than `m`.
pub both_wait_iff :
    (b : Buffer) (n m : ℕ)
    → IsOpen b
    → n ≤ b.size
    → (Waits (read_wait b n) × Waits (wait_for_write_space b m))
      ↔ ((len b < n) × (b.size < m + len b))
both_wait_iff b n m o l = (
  (λ (r, w). (read_wait-Waits b n o r, space-Waits b m o w)),
  (λ (r, w). (Waits-read_wait b n o l r, Waits-space b m o w)),
)

-- The writer, woken when the ring that it sleeps on is closed, and the ring that it leaves.
abbrev pub woken : Call ℕ → ℕ → Call ℕ
woken r next = wait_producer (close r.0).0 next

-- What any goroutine may call afterwards.
pub data Later : Type 0 where
  closes : Later
  commits reads peeks awaits makes_room : ℕ → Later
  writes : List ℕ → Later

unfoldable pub left_by : Buffer → Later → Buffer
left_by b closes = (close b).0
left_by b (commits n) = (read_commit b n).0
left_by b (reads n) = (read b n).0
left_by b (peeks n) = (read_peek b n).0
left_by b (awaits n) = (read_wait b n).0
left_by b (makes_room n) = (wait_for_write_space b n).0
left_by b (writes p) = (write b p).0

-- The ring after such calls, one after the other.
abbrev pub after : Buffer → List Later → Buffer
after b [] = b
after b (c ∷ cs) = after (left_by b c) cs

abbrev pub is_returned : {A : Type 0} → Progress A → Bool
is_returned (returned a) = true
is_returned r = false

abbrev Locks : Call ℕ → ℕ → Type 0
Locks r next = ((woken r next).1 ≡ failed eof) × ((woken r next).0.pheld ≡ true)
