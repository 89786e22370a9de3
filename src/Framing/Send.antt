-- ===== src/Framing/Send.antt =====
-- What `writeMessage` puts into a ring, and what a processor makes of it.
use simq.Base.{
  ℕ, ◌+◌, ◌-◌, ◌%◌, ◌≤◌, ◌≡◌, ap, ◌∙◌, Bool, true, false, List, ◌++◌, ltb, length, if◌then◌else◌,
  Outcome, ok, arith, Bool-cases, inl, inr,
}
use simq.Buffer.{
  Buffer, returned, Call, then_call, write, write_wait, write_wait_rest, write_commit,
  wait_for_write_space, copy_at, len,
}
use simq.Buffer.Invariant.{contents, mask_lem, IsBuffer}
use simq.Buffer.Writes.{appended, appended-IsBuffer, contents-appended, room_lem, write_lem}
use simq.Buffer.Run.{IsOpen}
use simq.Buffer.Loops.{commit_filled}
use simq.Framing.{Codec, then_ok, write_message}

-- The message `m` has the length of the bytes `p`, which `Encode` writes wherever they fit.
pub record Writes {M : Type 0} (c : Codec M) (m : M) (p : List ℕ) : Type 0 where
  pub length_eq : c.length_of m ≡ ok (length p)
  pub encode_eq : (room : ℕ) → length p ≤ room → c.encode m room ≡ ok p

module _ {M : Type 0} (c : Codec M) (outtmp : ℕ) (m : M) where
  -- The part of `writeMessage` behind `WriteWait`.
  abbrev with_slice : ℕ → Buffer → ℕ × ℕ × Bool → Call (Outcome ℕ)
  with_slice l b (start, room, wrap) =
      let enough = if ltb outtmp l then l else outtmp in
      if wrap
      then then_ok (b, returned (c.encode m enough))
          (λ b' out. then_call (write b' out) (λ b'' n. (b'', returned (ok n))))
      else then_ok (b, returned (c.encode m room))
          (λ b' out.
            then_call (write_commit (record b' { buf = copy_at b'.buf start out }) (length out))
              (λ b'' n. (b'', returned (ok n))))

  gated-IsBuffer : (b : Buffer) (g : ℕ) → IsBuffer b → g ≤ b.cpos → IsBuffer (record b { gate = g })
  gated-IsBuffer b g v l = record {
    exponent = v.exponent;
    size_eq = v.size_eq;
    mask_eq = v.mask_eq;
    buf_eq = v.buf_eq;
    gate_le = l;
    cpos_le = v.cpos_le;
    ppos_le = v.ppos_le;
  }

  -- Bytes that would go round the end are encoded elsewhere and copied.
  wrapped_lem :
      (b : Buffer) (p : List ℕ) (g start room : ℕ)
      → IsOpen b
      → Writes c m p
      → g ≤ b.cpos
      → length p + len b ≤ b.size
      → (g' : ℕ) × (g' ≤ b.cpos)
        × (with_slice (length p) (record b { gate = g }) (start, room, true)
            ≡ (appended b g' p, returned (ok (length p))))
  wrapped_lem b p g start room o w l fits =
      let b₁ : Buffer = record b { gate = g } in
      let (g', e, v, _) =
        write_lem b₁ p (gated-IsBuffer b g o.valid l) o.open_eq o.pfree o.cfree fits in
      (
        g',
        v.gate_le,
        ap
              (λ z.
                then_ok (b₁, returned z)
                  (λ b' out. then_call (write b' out) (λ b'' n. (b'', returned (ok n)))))
              (w.encode_eq (if ltb outtmp (length p) then length p else outtmp) (ground arith))
            ∙ ap (λ r. then_call r (λ b'' n. (b'', returned (ok n)))) e,
      )

  -- Others are encoded in place.
  placed_lem :
      (b : Buffer) (p : List ℕ) (g : ℕ)
      → IsOpen b
      → Writes c m p
      → g ≤ b.cpos
      → b.ppos % b.size + length p ≤ b.size
      → length p + len b ≤ b.size
      → (g' : ℕ) × (g' ≤ b.cpos)
        × (with_slice (length p) (record b { gate = g }) (b.ppos % b.size, length p, false)
            ≡ (appended b g' p, returned (ok (length p))))
  placed_lem b p g o w l within fits =
      let (g', l', e) = commit_filled b o g p l within (omega (arith, o.valid.cpos_le)) in
      (
        g',
        l',
        ap
              (λ z.
                then_ok (record b { gate = g }, returned z)
                  (λ b' out.
                    then_call
                      (write_commit (record b' { buf = copy_at b'.buf (b.ppos % b.size) out })
                        (length out))
                      (λ b'' n. (b'', returned (ok n)))))
              (w.encode_eq (length p) (omega arith))
            ∙ ap (λ r. then_call r (λ b'' n. (b'', returned (ok n)))) e,
      )

  -- What `WriteWait` says of the slice.
  slice_lem :
      (b : Buffer) (n g : ℕ)
      → IsOpen b
      → wait_for_write_space b n ≡ (record b { gate = g }, returned b.ppos)
      → write_wait b n ≡ (
          if ltb b.size (b.ppos % b.size + n)
          then (record b { gate = g }, returned (b.ppos % b.size, b.size - b.ppos % b.size, true))
          else (record b { gate = g }, returned (b.ppos % b.size, n, false)))
  unfolding write_wait write_wait_rest
  slice_lem b n g o e =
      ap (λ r. then_call r (write_wait_rest n)) e
      ∙ ap
          (λ i.
            if ltb b.size (i + n)
            then (record b { gate = g }, returned (i, b.size - i, true))
            else (record b { gate = g }, returned (i, n, false)))
          (mask_lem b b.ppos o.valid)

  -- Both ways end alike.
  chosen_lem :
      (b : Buffer) (p : List ℕ) (g : ℕ)
      → IsOpen b
      → Writes c m p
      → g ≤ b.cpos
      → length p + len b ≤ b.size
      → (g' : ℕ) × (g' ≤ b.cpos)
        × (then_call
              (if ltb b.size (b.ppos % b.size + length p)
                then (
                  record b { gate = g },
                  returned (b.ppos % b.size, b.size - b.ppos % b.size, true),
                )
                else (record b { gate = g }, returned (b.ppos % b.size, length p, false)))
              (with_slice (length p))
            ≡ (appended b g' p, returned (ok (length p))))
  chosen_lem b p g o w l fits =
      let b₁ : Buffer = record b { gate = g } in
      let pick : Bool → Call (Outcome ℕ) = (λ z.
        then_call
          (if z
            then (b₁, returned (b.ppos % b.size, b.size - b.ppos % b.size, true))
            else (b₁, returned (b.ppos % b.size, length p, false)))
          (with_slice (length p))) in
      elim (Bool-cases (ltb b.size (b.ppos % b.size + length p))) [
        | inl t ↦
            let (g', l', e) =
              wrapped_lem b p g (b.ppos % b.size) (b.size - b.ppos % b.size) o w l fits in
            (g', l', ap pick t ∙ e)
        | inr t ↦
            let (g', l', e) = placed_lem b p g o w l (ground arith) fits in (g', l', ap pick t ∙ e)
      ]

  -- On an open ring with room `writeMessage` puts the bytes that `Encode` gives behind the others,
  -- whether they lie in one piece in the ring or go round its end, and returns how many they are.
  pub write_message_lem :
      (b : Buffer) (p : List ℕ)
      → IsOpen b
      → Writes c m p
      → length p + len b ≤ b.size
      → (g : ℕ) × (write_message c b outtmp m ≡ (appended b g p, returned (ok (length p))))
        × IsOpen (appended b g p)
        × (contents (appended b g p) ≡ contents b ++ p)
  unfolding write_message
  write_message_lem b p o w fits =
      let room : b.ppos + length p ≤ b.cpos + b.size = omega (arith, o.valid.cpos_le) in
      let (g, l, e) = room_lem b o.valid (length p) o.open_eq o.pfree room in
      let (g', l', f) = chosen_lem b p g o w l fits in
      (
        g',
        ap (λ k. then_ok (b, returned k) (λ b₁ l. then_call (write_wait b₁ l) (with_slice l)))
              w.length_eq
            ∙ ap (λ r. then_call r (with_slice (length p))) (slice_lem b (length p) g o e)
            ∙ f,
        record {
          valid = appended-IsBuffer b o.valid g' p l' room;
          open_eq = o.open_eq;
          pfree = o.pfree;
          cfree = o.cfree;
        },
        contents-appended b o.valid g' p room,
      )
