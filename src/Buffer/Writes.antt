-- ===== src/Buffer/Writes.antt =====
-- The calls of the writer, as operations on the bytes in the ring.
use simq.Base.{
  ℕ, ◌+◌, ◌-◌, ◌%◌, ◌≤◌, ◌<◌, ◌≡◌, sym, ap, ◌∙◌, false, ◌||◌, List, ◌++◌, length, arith, ltb,
  if◌then◌else◌, inl, inr, Bool-cases,
}
use simq.Base.Window.{window}
use simq.Buffer.{
  Buffer, eof, returned, failed, waits, locked, Call, len, write, write_rest, write_commit_rest,
  wait_for_write_space, wake_consumer, then_call, ring_copy, copy_at,
}
use simq.Buffer.Copy.{put_all, length-put_all, window-put_all, ring_copy_lem, copy_at-put_all}
use simq.Buffer.Invariant.{IsBuffer, contents, start_in, mask_lem}
use native.Mathlib.Nat.{mod-add-mod}

-- The bytes put behind the others.
abbrev pub appended : Buffer → ℕ → List ℕ → Buffer
appended b g p = record b {
  gate = g;
  buf = put_all b.size b.buf p (b.ppos % b.size);
  ppos = b.ppos + length p;
}

module _ (b : Buffer) (v : IsBuffer b) where
  pub appended-IsBuffer :
      (g : ℕ) (p : List ℕ)
      → g ≤ b.cpos
      → b.ppos + length p ≤ b.cpos + b.size
      → IsBuffer (appended b g p)
  appended-IsBuffer g p h room = record {
    exponent = v.exponent;
    size_eq = v.size_eq;
    mask_eq = v.mask_eq;
    buf_eq = length-put_all b.size b.buf p (b.ppos % b.size) ∙ v.buf_eq;
    gate_le = h;
    cpos_le = omega (arith, v.cpos_le);
    ppos_le = room;
  }

  end_lem : (b.cpos % b.size + (b.ppos - b.cpos)) % b.size ≡ b.ppos % b.size
  end_lem =
      mod-add-mod b.cpos b.size (b.ppos - b.cpos)
      ∙ ap (λ k. k % b.size) {y = b.ppos} (omega (arith, v.cpos_le))

  pub contents-appended :
      (g : ℕ) (p : List ℕ)
      → b.ppos + length p ≤ b.cpos + b.size
      → contents (appended b g p) ≡ contents b ++ p
  contents-appended g p room =
      ap (window 0 b.size (put_all b.size b.buf p (b.ppos % b.size)) (b.cpos % b.size))
        {y = b.ppos - b.cpos + length p} (omega (arith, v.cpos_le))
      ∙ ap
          (λ i.
            window 0 b.size (put_all b.size b.buf p i) (b.cpos % b.size)
              (b.ppos - b.cpos + length p))
          (sym end_lem)
      ∙ window-put_all b.size b.buf p (b.cpos % b.size) (b.ppos - b.cpos) (omega (arith, v.buf_eq))
          (start_in b b.cpos v) (omega (arith, v.cpos_le))

  -- With room the position is that of the writer, whatever gate it knew.
  pub room_lem :
      (n : ℕ)
      → b.done ≡ false
      → b.pheld ≡ false
      → b.ppos + n ≤ b.cpos + b.size
      → (g : ℕ) × (g ≤ b.cpos)
        × (wait_for_write_space b n ≡ (record b { gate = g }, returned b.ppos))
  unfolding wait_for_write_space
  room_lem n d f room =
      elim (Bool-cases (ltb (b.gate + b.size) (b.ppos + n) || ltb b.ppos b.gate)) [
        | inl t ↦ (b.cpos, omega arith, ground (arith, d, f, t))
        | inr t ↦ (b.gate, v.gate_le, ground (arith, d, f, t))
      ]

  pub no_room_lem :
      (n : ℕ)
      → b.done ≡ false
      → b.pheld ≡ false
      → b.cpos + b.size < b.ppos + n
      → wait_for_write_space b n ≡ (record b { pwait = b.pwait + 1 }, waits)
  unfolding wait_for_write_space
  no_room_lem n d f full = ground (arith, d, f, v.gate_le)

  -- What `Write` copies.
  write_rest_lem :
      (g : ℕ) (p : List ℕ)
      → b.cheld ≡ false
      → b.ppos + length p ≤ b.cpos + b.size
      → write_rest p (record b { gate = g }) b.ppos ≡ (appended b g p, returned (length p))
  unfolding write_rest
  write_rest_lem g p free room =
      ap (λ t. wake_consumer (record b { gate = g; buf = t; ppos = b.ppos + length p }) (length p))
        (ap (ring_copy (length p) b.buf p) (mask_lem b b.ppos v)
          ∙ ring_copy_lem (length p) b.size b.buf p (b.ppos % b.size) v.buf_eq (omega arith)
              (omega (arith, v.cpos_le)) (start_in b b.ppos v))
      ∙ ap (λ t. if t then (appended b g p, locked) else (appended b g p, returned (length p))) free

  -- The slice that `WriteWait` gives, filled with `p` by its user and committed.
  pub filled_lem :
      (g : ℕ) (p : List ℕ)
      → b.cheld ≡ false
      → b.ppos % b.size + length p ≤ b.size
      → write_commit_rest
          (length p)
          (record b { gate = g; buf = copy_at b.buf (b.ppos % b.size) p })
          b.ppos
        ≡ (appended b g p, returned (length p))
  unfolding write_commit_rest
  filled_lem g p free room =
      ap (λ t. wake_consumer (record b { gate = g; buf = t; ppos = b.ppos + length p }) (length p))
        (copy_at-put_all b.size b.buf p (b.ppos % b.size) v.buf_eq room (start_in b b.ppos v))
      ∙ ap (λ t. if t then (appended b g p, locked) else (appended b g p, returned (length p))) free

-- The call puts the bytes behind the others, and returns `a`.
abbrev pub Appends : {A : Type 0} → Buffer → List ℕ → A → Call A → Type 0
Appends b p a r =
    (g : ℕ) × (r ≡ (appended b g p, returned a))
    × IsBuffer (appended b g p)
    × (contents (appended b g p) ≡ contents b ++ p)

-- `Write` on an open ring with room puts all its bytes behind the others.
pub write_lem :
    (b : Buffer) (p : List ℕ)
    → IsBuffer b
    → b.done ≡ false
    → b.pheld ≡ false
    → b.cheld ≡ false
    → length p + len b ≤ b.size
    → Appends b p (length p) (write b p)
unfolding write
write_lem b p v d f c room =
    let (g, h, e) = room_lem b v (length p) d f (omega (arith, v.cpos_le)) in
    (
      g,
      ap
            (λ t.
              if t
              then (b, failed eof)
              else then_call (wait_for_write_space b (length p)) (write_rest p))
            d
          ∙ ap (λ r. then_call r (write_rest p)) e
          ∙ write_rest_lem b v g p c (omega (arith, v.cpos_le)),
      appended-IsBuffer b v g p h (omega (arith, v.cpos_le)),
      contents-appended b v g p (omega (arith, v.cpos_le)),
    )

-- Without room the writer sleeps.
pub write-waits :
    (b : Buffer) (p : List ℕ)
    → IsBuffer b
    → b.done ≡ false
    → b.pheld ≡ false
    → b.size < length p + len b
    → write b p ≡ (record b { pwait = b.pwait + 1 }, waits)
unfolding write
write-waits b p v d f full =
    ap
      (λ t.
        if t then (b, failed eof) else then_call (wait_for_write_space b (length p)) (write_rest p))
      d
    ∙ ap (λ r. then_call r (write_rest p))
        (no_room_lem b v (length p) d f (omega (arith, v.cpos_le)))
