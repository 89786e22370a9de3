-- ===== src/Buffer/Stuck.antt =====
-- A packet that is nearly as long as the ring: `ReadFrom` wants a block of room, `ReadWait` the whole packet.
use simq.Base.{
  ℕ, ◌+◌, ◌≤◌, ◌<◌, ◌≡◌, refl, ap, ◌∙◌, Bool, true, false, List, [], ◌∷◌, arith, if◌then◌else◌,
}
use simq.Buffer.{Buffer, Progress, waits, len, default_read_block_size, read_wait}
use simq.Buffer.Network.{Chunk, read_from_round}
use simq.Buffer.Writes.{no_room_lem}
use simq.Buffer.Run.{IsOpen, touched, touched-IsOpen}
use simq.Buffer.Loops.{round_by}

-- An attempt of the network to bring a chunk, or of the processor to have a packet of `n` bytes.
pub data Attempt : Type 0 where
  brings : Chunk → Attempt
  wants : Attempt

abbrev pub is_waiting : {A : Type 0} → Progress A → Bool
is_waiting waits = true
is_waiting r = false

unfoldable pub attempt : Buffer → ℕ → Attempt → Buffer × Bool
attempt b n (brings c) = let (b', r) = read_from_round b c in (b', is_waiting r)
attempt b n wants = let (b', r) = read_wait b n in (b', is_waiting r)

-- All attempts, one after the other, end in sleep.
unfoldable pub all_wait : Buffer → ℕ → List Attempt → Bool
all_wait b n [] = true
all_wait b n (a ∷ rest) =
    let (b', w) = attempt b n a in let later = all_wait b' n rest in if w then later else false

wants-waits :
    (b : Buffer) (n : ℕ) → IsOpen b → n ≤ b.size → len b < n → attempt b n wants ≡ (b, true)
unfolding attempt read_wait
wants-waits b n o l h = ground (arith, o.open_eq, o.cfree, o.valid.cpos_le)

brings-waits :
    (b : Buffer) (n : ℕ) (c : Chunk)
    → IsOpen b
    → b.size < default_read_block_size + len b
    → attempt b n (brings c) ≡ (touched b b.tmp b.cwait (b.pwait + 1), true)
unfolding attempt
brings-waits b n c o full =
    ap (λ (b', r). (b', is_waiting r))
      (round_by b c _ o.open_eq (
        no_room_lem b o.valid default_read_block_size o.open_eq o.pfree
          (omega (arith, o.valid.cpos_le))))

-- A ring that has less than a block of room, and fewer bytes than the packet of `n` bytes that the
-- processor waits for: however the two sides go on, each of their attempts ends in sleep, also when
-- the packet would fit in the ring.
pub stuck :
    (made : List Attempt) (b : Buffer) (n : ℕ)
    → IsOpen b
    → n ≤ b.size
    → len b < n
    → b.size < default_read_block_size + len b
    → all_wait b n made ≡ true
unfolding all_wait
stuck [] b n o l short full = refl
stuck (wants ∷ rest) b n o l short full =
    ap (λ (b', w). if w then all_wait b' n rest else false) (wants-waits b n o l short)
    ∙ stuck rest b n o l short full
stuck (brings c ∷ rest) b n o l short full =
    ap (λ (b', w). if w then all_wait b' n rest else false) (brings-waits b n c o full)
    ∙ stuck rest (touched b b.tmp b.cwait (b.pwait + 1)) n
        (touched-IsOpen b b.tmp b.cwait (b.pwait + 1) o) l short full
