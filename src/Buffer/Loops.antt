-- ===== src/Buffer/Loops.antt =====
-- A round of `ReadFrom` and of `WriteTo`, as operations on the bytes in the ring.
use simq.Base.{
  ℕ, ◌+◌, ◌%◌, ◌≤◌, ◌<◌, ◌≡◌, refl, sym, ap, subst, ◌∙◌, bit_and, Bool, true, false, List, [], ◌∷◌,
  ◌++◌, Option, none, some, length, length-take, take, drop, arith, ◌==◌, if◌then◌else◌, min,
}
use simq.Buffer.{
  Buffer, BufferError, eof, returned, Call, len, default_read_block_size, read_peek, read_commit,
  wait_for_write_space, write_commit, write_commit_rest, then_call, copy_at,
}
use simq.Buffer.Network.{
  Chunk, Ending, connection_error, buffer_error, slice_room, commit_chunk, read_from_round, Sink,
  write_out, write_to_round,
}
use simq.Buffer.Copy.{put_all, length-put_all, copy_at-put_all, take-all}
use simq.Buffer.Invariant.{
  IsBuffer, contents, start_in, mask_lem, length-contents, advanced-IsBuffer,
}
use simq.Buffer.Reads.{read_peek_lem, read_commit_lem, contents_rest}
use simq.Buffer.Writes.{appended, appended-IsBuffer, contents-appended, room_lem, filled_lem}
use simq.Buffer.Run.{IsOpen, touched, touched-IsOpen, keep_tmp-touched}

-- The slice with the bytes of the chunk in it.
abbrev pub filled : Buffer → ℕ → List ℕ → Buffer
filled b g p = record b { gate = g; buf = copy_at b.buf (b.ppos % b.size) p }

some_chunk :
    (b : Buffer) (p : List ℕ) (s : ℕ)
    → 0 < length p
    → commit_chunk b p s
      ≡ then_call
          (write_commit (record b { buf = copy_at b.buf s p }) (length p))
          (λ b' n. (b', returned tt))
unfolding commit_chunk
some_chunk b p s h =
    ap
      (λ t.
        if t
        then (b, returned tt)
        else then_call (write_commit (record b { buf = copy_at b.buf s p }) (length p))
            (λ b' n. (b', returned tt)))
      {x = length p == 0} {y = false} (ground arith)

commit_by :
    (b : Buffer) (n : ℕ) (r : Call ℕ)
    → wait_for_write_space b n ≡ r
    → write_commit b n ≡ then_call r (write_commit_rest n)
unfolding write_commit
commit_by b n r e = ap (λ z. then_call z (write_commit_rest n)) e

-- What a round of `ReadFrom` does when it has the position.
abbrev with_chunk : Chunk → Buffer → ℕ → Call (Option Ending)
with_chunk c b i =
    then_call (commit_chunk b (take (slice_room b i) c.bytes) i)
      (λ b' _. (b', returned (if c.broken then some connection_error else none)))

pub round_by :
    (b : Buffer) (c : Chunk) (r : Call ℕ)
    → b.done ≡ false
    → wait_for_write_space b default_read_block_size ≡ r
    → read_from_round b c ≡ then_call r (λ b' start. with_chunk c b' (bit_and start b'.mask))
unfolding read_from_round
round_by b c r d e =
    ap
      (λ t.
        if t
        then (b, returned (some (buffer_error eof)))
        else then_call (wait_for_write_space b default_read_block_size)
            (λ b' start. with_chunk c b' (bit_and start b'.mask)))
      d
    ∙ ap (λ z. then_call z (λ b' start. with_chunk c b' (bit_and start b'.mask))) e

drain_by :
    (b : Buffer) (w : Sink) (r : Call (List ℕ × Option BufferError))
    → b.done ≡ false
    → read_peek b default_read_block_size ≡ r
    → write_to_round b w ≡ then_call r (λ b' (p, short). write_out b' w p)
unfolding write_to_round
drain_by b w r d e =
    ap
      (λ t.
        if t
        then (b, returned (some (buffer_error eof)))
        else then_call (read_peek b default_read_block_size) (λ b' (p, short). write_out b' w p))
      d
    ∙ ap (λ z. then_call z (λ b' (p, short). write_out b' w p)) e

-- What a round of `WriteTo` does with the answer of the connection.
abbrev sent : Buffer → ℕ × Bool → Call (Option Ending)
sent b z =
    if z.1
    then (b, returned (some connection_error))
    else then_call (read_commit b z.0) (λ b' _. (b', returned none))

-- How the round ends, and what is left in the ring when the connection takes `k` bytes or fails.
abbrev pub Drains : Buffer → ℕ → Bool → Call (Option Ending) → Type 0
Drains b k broken r =
    (r.1 ≡ returned (if broken then some connection_error else none))
    × IsOpen r.0
    × (contents r.0 ≡ (if broken then contents b else drop k (contents b)))

module _ (b : Buffer) (o : IsOpen b) where
  filled-IsBuffer :
      (g : ℕ) (p : List ℕ)
      → g ≤ b.cpos
      → b.ppos % b.size + length p ≤ b.size
      → IsBuffer (filled b g p)
  filled-IsBuffer g p l fits = record {
    exponent = o.valid.exponent;
    size_eq = o.valid.size_eq;
    mask_eq = o.valid.mask_eq;
    buf_eq =
        ap length (
          copy_at-put_all b.size b.buf p (b.ppos % b.size) o.valid.buf_eq fits
            (start_in b b.ppos o.valid))
        ∙ length-put_all b.size b.buf p (b.ppos % b.size)
        ∙ o.valid.buf_eq;
    gate_le = l;
    cpos_le = o.valid.cpos_le;
    ppos_le = o.valid.ppos_le;
  }

  pub commit_filled :
      (g : ℕ) (p : List ℕ)
      → g ≤ b.cpos
      → b.ppos % b.size + length p ≤ b.size
      → b.ppos + length p ≤ b.cpos + b.size
      → (g' : ℕ) × (g' ≤ b.cpos)
        × (write_commit (filled b g p) (length p) ≡ (appended b g' p, returned (length p)))
  commit_filled g p l fits room =
      let (g', l', e) =
        room_lem (filled b g p) (filled-IsBuffer g p l fits) (length p) o.open_eq o.pfree room in
      (g', l', commit_by (filled b g p) (length p) _ e ∙ filled_lem b o.valid g' p o.cfree fits)

  commit_chunk_lem :
      (g : ℕ) (p : List ℕ)
      → g ≤ b.cpos
      → b.ppos % b.size + length p ≤ b.size
      → b.ppos + length p ≤ b.cpos + b.size
      → (g' : ℕ) × (g' ≤ b.cpos)
        × (commit_chunk (record b { gate = g }) p (b.ppos % b.size)
            ≡ (appended b g' p, returned tt))
  commit_chunk_lem g [] l fits room = (
    g,
    l,
    unfold commit_chunk put_all in
        ap (λ k. (record b { gate = g; ppos = k }, returned tt)) {y = b.ppos + 0} (omega arith),
  )
  commit_chunk_lem g (x ∷ p) l fits room =
      let (g', l', e) = commit_filled g (x ∷ p) l fits room in
      (
        g',
        l',
        some_chunk (record b { gate = g }) (x ∷ p) (b.ppos % b.size) (omega arith)
            ∙ ap (λ r. then_call r (λ b' n. (b', returned tt))) e,
      )

  -- With room for a block a round of `ReadFrom` puts what the connection brought, no more than the
  -- slice that it was handed, behind the bytes in the ring, and goes on exactly if the connection has
  -- not failed.
  pub read_from_round_lem :
      (c : Chunk)
      → default_read_block_size + len b ≤ b.size
      → length c.bytes ≤ slice_room b (b.ppos % b.size)
      → (g : ℕ) × (read_from_round b c
          ≡ (appended b g c.bytes, returned (if c.broken then some connection_error else none)))
        × IsOpen (appended b g c.bytes)
        × (contents (appended b g c.bytes) ≡ contents b ++ c.bytes)
  read_from_round_lem c room fits =
      let (g, l, e) =
        room_lem b o.valid default_read_block_size o.open_eq o.pfree
          (omega (arith, o.valid.cpos_le)) in
      let within : b.ppos % b.size + length c.bytes ≤ b.size =
        omega (arith, start_in b b.ppos o.valid) in
      let little : b.ppos + length c.bytes ≤ b.cpos + b.size = omega (arith, o.valid.cpos_le) in
      let (g', l', e') = commit_chunk_lem g c.bytes l within little in
      (
        g',
        round_by b c _ o.open_eq e
            ∙ ap (with_chunk c (record b { gate = g })) (mask_lem b b.ppos o.valid)
            ∙ ap
                (λ p.
                  then_call (commit_chunk (record b { gate = g }) p (b.ppos % b.size))
                    (λ b' _. (b', returned (if c.broken then some connection_error else none))))
                (take-all (slice_room b (b.ppos % b.size)) c.bytes fits)
            ∙ ap
                (λ r.
                  then_call r
                    (λ b' _. (b', returned (if c.broken then some connection_error else none))))
                e',
        record {
          valid = appended-IsBuffer b o.valid g' c.bytes l' little;
          open_eq = o.open_eq;
          pfree = o.pfree;
          cfree = o.cfree;
        },
        contents-appended b o.valid g' c.bytes little,
      )

  sent_lem : (k : ℕ) (broken : Bool) → k ≤ len b → Drains b k broken (sent b (k, broken))
  sent_lem k true l = (refl, o, refl)
  sent_lem k false l =
      subst (λ z. Drains b k false (then_call z (λ b' _. (b', returned none))))
        (sym (read_commit_lem b o.valid k l o.pfree))
        (
          refl,
          record {
            valid = advanced-IsBuffer b k o.valid l;
            open_eq = o.open_eq;
            pfree = o.pfree;
            cfree = o.cfree;
          },
          contents_rest b o.valid k l,
        )

  write_out_lem :
      (w : Sink) (p : List ℕ) (k : ℕ) (broken : Bool)
      → w p ≡ (k, broken)
      → 0 < length p
      → k ≤ len b
      → Drains b k broken (write_out b w p)
  unfolding write_out
  write_out_lem w [] k broken e some_data l = absurd (omega arith)
  write_out_lem w (x ∷ p) k broken e some_data l =
      subst (λ z. Drains b k broken (sent b z)) (sym e) (sent_lem k broken l)

-- A round of `WriteTo` on a ring that has bytes hands the connection the oldest ones, a block of them
-- at most: those that it takes leave the ring, and all of them stay when it fails.
pub write_to_round_lem :
    (b : Buffer) (w : Sink) (k : ℕ) (broken : Bool)
    → IsOpen b
    → default_read_block_size ≤ b.size
    → 0 < len b
    → w (take default_read_block_size (contents b)) ≡ (k, broken)
    → k ≤ min default_read_block_size (len b)
    → Drains b k broken (write_to_round b w)
write_to_round_lem b w k broken o large some_data e l =
    let (t, f) = keep_tmp-touched b (min default_read_block_size (len b)) in
    let b' : Buffer = touched b t b.cwait b.pwait in
    subst (Drains b k broken)
      (sym (
        drain_by b w _ o.open_eq
          (read_peek_lem b o.valid default_read_block_size large o.cfree some_data)
        ∙ ap (λ z. write_out z w (take default_read_block_size (contents b))) f))
      (write_out_lem b' (touched-IsOpen b t b.cwait b.pwait o) w
        (take default_read_block_size (contents b)) k broken e
        (omega (arith, length-take default_read_block_size (contents b), length-contents b))
        (omega arith))
