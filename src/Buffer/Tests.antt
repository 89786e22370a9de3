-- ===== src/Buffer/Tests.antt =====
-- The ring of a connection on concrete bytes, and its theorems at concrete inputs.
use simq.Base.{
  ℕ, ◌+◌, ◌^◌, ◌≡◌, ◌↔◌, ◌<◌, refl, true, false, List, [], ◌∷◌, ◌++◌, none, some, arith,
  length-replicate,
}
use simq.AckQueue.{power_of_two64}
use simq.Buffer.{
  Buffer, buffer_full, insufficient_data, bad_size, Progress, returned, failed, waits, len,
  empty_buffer, new_buffer, read, read_loop, read_peek, read_wait, read_commit, write, write_wait,
  wait_for_write_space, ring_copy, peeked, keep_tmp, write_rest, write_wait_rest,
}
use simq.Buffer.Copy.{put_all, ring_copy_lem}
use simq.Buffer.Invariant.{IsBuffer, contents}
use simq.Buffer.Writes.{appended}
use simq.Buffer.Spec
use simq.Buffer.Spec.{do_write, do_peek, do_wait, do_commit, Op, Reply, got, count}
use simq.Buffer.Run.{IsOpen, run, step, run_refines_pipe, pipe, empty_buffer-IsOpen}
use simq.Buffer.Close.{both_wait_iff, Waits}
use simq.Buffer.Network.{connection_error, read_from_round, write_to_round}
use simq.Buffer.Loops.{read_from_round_lem, write_to_round_lem, Drains}
use simq.Buffer.Stuck.{stuck, all_wait, wants, brings, Attempt}

-- A ring of four bytes in which the reader is at 3 and the writer at 5.
abbrev ring : Buffer
ring = record (empty_buffer 4) { buf = 12 ∷ 0 ∷ 0 ∷ 11 ∷ []; cpos = 3; ppos = 5 }

abbrev ring-IsBuffer : IsBuffer ring
ring-IsBuffer = record {
  exponent = 2;
  size_eq = refl;
  mask_eq = refl;
  buf_eq = refl;
  gate_le = omega arith;
  cpos_le = omega arith;
  ppos_le = omega arith;
}

abbrev ring-IsOpen : IsOpen ring
ring-IsOpen = record { valid = ring-IsBuffer; open_eq = refl; pfree = refl; cfree = refl }

-- A write that goes round the end, a look at more than there is, and a reader and a writer that sleep.
abbrev calls : List Op
calls =
    do_peek 3
    ∷ do_write (13 ∷ [])
    ∷ do_wait 4
    ∷ do_write (14 ∷ 15 ∷ [])
    ∷ do_commit 2
    ∷ do_write (14 ∷ 15 ∷ [])
    ∷ do_peek 3
    ∷ do_commit 4
    ∷ do_wait 5
    ∷ []

abbrev replies : List (Progress Reply)
replies =
    returned (got (11 ∷ 12 ∷ []) (some insufficient_data))
    ∷ returned (count 1)
    ∷ waits
    ∷ waits
    ∷ returned (count 2)
    ∷ returned (count 2)
    ∷ returned (got (13 ∷ 14 ∷ 15 ∷ []) none)
    ∷ failed insufficient_data
    ∷ failed buffer_full
    ∷ []

run-ring : run ring calls ≡ replies
unfolding run step write read_peek read_wait read_commit wait_for_write_space ring_copy peeked
    keep_tmp write_rest
run-ring = refl

run_refines_pipe_example : run ring calls ≡ Spec.run (pipe ring) calls
run_refines_pipe_example = run_refines_pipe ring calls ring-IsOpen

-- `Read` stops at the end of the ring.
read-ring : (read ring 9).1 ≡ returned (11 ∷ [])
unfolding read read_loop
read-ring = refl

ring_copy_lem_example :
    ring_copy 9 (1 ∷ 2 ∷ 3 ∷ []) (7 ∷ 8 ∷ 9 ∷ []) 2 ≡ put_all 3 (1 ∷ 2 ∷ 3 ∷ []) (7 ∷ 8 ∷ 9 ∷ []) 2
ring_copy_lem_example =
    ring_copy_lem 9 3 (1 ∷ 2 ∷ 3 ∷ []) (7 ∷ 8 ∷ 9 ∷ []) 2 refl (omega arith) (omega arith)
      (omega arith)

new_buffer_sizes : (new_buffer 3 ≡ failed bad_size) × (new_buffer 1024 ≡ failed bad_size)
unfolding new_buffer power_of_two64
new_buffer_sizes = (refl, refl)

write_wait-ring : ((write_wait ring 2).1 ≡ returned (1, 2, false)) × ((write_wait ring 3).1 ≡ waits)
unfolding write_wait wait_for_write_space write_wait_rest
write_wait-ring = (refl, refl)

both_wait_iff_example :
    (Waits (read_wait ring 3) × Waits (wait_for_write_space ring 3))
    ↔ ((len ring < 3) × (4 < 3 + len ring))
both_wait_iff_example = both_wait_iff ring 3 3 ring-IsOpen (omega arith)

-- An empty ring as large as the smallest that `newBuffer` makes.
abbrev large : Buffer
large = empty_buffer (2 ^ 11)

read_from_round_lem_example :
    (g : ℕ) × (read_from_round large (record { bytes = 48 ∷ 0 ∷ []; broken = true })
      ≡ (appended large g (48 ∷ 0 ∷ []), returned (some connection_error)))
    × IsOpen (appended large g (48 ∷ 0 ∷ []))
    × (contents (appended large g (48 ∷ 0 ∷ [])) ≡ contents large ++ (48 ∷ 0 ∷ []))
read_from_round_lem_example =
    read_from_round_lem large (empty_buffer-IsOpen 11)
      (record { bytes = 48 ∷ 0 ∷ []; broken = true }) (omega arith) (omega arith)

-- 1025 bytes of a packet of 1026 in a ring of 2048.
abbrev nearly : Buffer
nearly = record (empty_buffer (2 ^ 11)) { ppos = 1025 }

nearly-IsOpen : IsOpen nearly
nearly-IsOpen = record {
  valid = record {
    exponent = 11;
    size_eq = refl;
    mask_eq = refl;
    buf_eq = length-replicate {A = ℕ} (2 ^ 11) 0;
    gate_le = omega arith;
    cpos_le = omega arith;
    ppos_le = omega arith;
  };
  open_eq = refl;
  pfree = refl;
  cfree = refl;
}

abbrev attempts : List Attempt
attempts = wants ∷ brings (record { bytes = 0 ∷ []; broken = false }) ∷ wants ∷ []

stuck_example : all_wait nearly 1026 attempts ≡ true
stuck_example = stuck attempts nearly 1026 nearly-IsOpen (omega arith) (omega arith) (omega arith)

write_to_round_lem_example : Drains nearly 1 false (write_to_round nearly (λ p. (1, false)))
write_to_round_lem_example =
    write_to_round_lem nearly (λ p. (1, false)) 1 false nearly-IsOpen (omega arith) (omega arith)
      refl (omega arith)
