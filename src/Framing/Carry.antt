-- ===== src/Framing/Carry.antt =====
-- Whole packets: a round of `processor` on the packet in front of a ring.
use simq.Base.{
  ℕ, ◌+◌, ◌/◌, ◌≤◌, ◌≡◌, refl, ap, ◌∙◌, false, List, ◌∷◌, ◌++◌, append_assoc, ltb, length,
  length-append, drop, if◌then◌else◌, Outcome, ok, err, packet_too_large, ◌>>=◌, arith,
}
use simq.Wire.Codes.{max_remaining_length}
use simq.Wire.VarInt.{put_uvarint}
use simq.Buffer.{Buffer, returned, waits, Call, then_call, read_commit, len}
use simq.Buffer.Invariant.{contents, length-contents, advanced, advanced-IsBuffer}
use simq.Buffer.Reads.{read_commit_lem, contents_rest, drop-append_left}
use simq.Buffer.Run.{IsOpen, touched, touched-IsOpen}
use simq.Framing.{Codec, then_ok, peek_message, process_round}
use simq.Framing.Size.{Looks, Looks-read_wait}
use simq.Framing.Peek.{peek_message_size_lem}

-- The bytes `p` are a packet, and `Decode` makes of them, whatever lies behind them, a message of
-- which `Good` holds.
pub record Carries {M : Type 0} (c : Codec M) (Good : M → Type 0) (p : List ℕ) : Type 0 where
  pub first : ℕ
  pub body : List ℕ
  pub fresh : M
  pub bytes_eq : p ≡ first ∷ (put_uvarint (length body) ++ body)
  pub small : length body ≤ max_remaining_length
  pub new_eq : c.new (first / 16) ≡ ok fresh
  pub decodes :
      (spare : List ℕ)
      → (m : M) × (c.decode fresh (record { bytes = p; spare = spare }) ≡ ok (length p, m)) × Good m

module _ {M : Type 0} (c : Codec M) (Good : M → Type 0) (max_size : ℕ)
    (handle : M → Outcome (Unit {0})) (spare : List ℕ) where
  -- The part of a round behind `peekMessage`.
  abbrev handled : ℕ → Buffer → ℕ × M → Call (Outcome M)
  handled total b (n, m) =
      then_ok (b, returned (handle m))
        (λ b' _. then_call (read_commit b' total) (λ b'' _. (b'', returned (ok m))))

  abbrev sized : Buffer → ℕ × ℕ → Call (Outcome M)
  sized b (t, total) =
      if ltb max_size total
      then (b, returned (err packet_too_large))
      else then_ok (peek_message c b t total spare) (handled total)

  length-packet :
      (p : List ℕ) (v : Carries c Good p)
      → length v.body + 1 + length (put_uvarint (length v.body)) ≡ length p
  length-packet p v =
      omega (arith, ap length v.bytes_eq, length-append (put_uvarint (length v.body)) v.body)

  peek_message_lem :
      (b : Buffer) (p rest : List ℕ) (v : Carries c Good p)
      → IsOpen b
      → contents b ≡ p ++ rest
      → (m : M) × Good m
        × Looks {A = Outcome (ℕ × M)} b
            (ok (length p, m))
            (peek_message c b (v.first / 16) (length p) spare)
  unfolding peek_message
  peek_message_lem b p rest v o e =
      let (t, f) = Looks-read_wait b p rest o e in
      let (m, d, good) = v.decodes spare in
      let b' = touched b t b.cwait b.pwait in
      let enough : ltb (length p) (length p) ≡ false = ground arith in
      let answer : Buffer → List ℕ → Call (Outcome (ℕ × M)) = (λ b' p'.
        if ltb (length p') (length p) then (b', waits) else (
          b',
          returned
              (c.new (v.first / 16) >>= λ r. c.decode r (record { bytes = p'; spare = spare })),
        )) in
      (
        m,
        good,
        (
          t,
          ap (λ r. then_call r answer) f
              ∙ ap
                  (λ z. if z then (b', waits) else (
                    b',
                    returned (
                        c.new (v.first / 16) >>= λ r.
                        c.decode r (record { bytes = p; spare = spare })),
                  ))
                  enough
              ∙ ap
                  (λ o.
                    (b', returned (o >>= λ r. c.decode r (record { bytes = p; spare = spare }))))
                  v.new_eq
              ∙ ap (λ o. (b', returned o)) d,
        ),
      )

  handled_lem :
      (b : Buffer) (p rest : List ℕ) (m : M)
      → IsOpen b
      → handle m ≡ ok tt
      → contents b ≡ p ++ rest
      → (b' : Buffer) × (handled (length p) b (length p, m) ≡ (b', returned (ok m)))
        × IsOpen b'
        × (contents b' ≡ rest)
  handled_lem b p rest m o h e =
      let l : length p ≤ len b =
        omega (arith, length-contents b, ap length e, length-append p rest) in
      (
        advanced b (length p),
        ap
              (λ o.
                then_ok (b, returned o)
                  (λ b' _. then_call (read_commit b' (length p)) (λ b'' _. (b'', returned (ok m)))))
              h
            ∙ ap (λ r. then_call r (λ b'' _. (b'', returned (ok m))))
                (read_commit_lem b o.valid (length p) l o.pfree),
        record {
          valid = advanced-IsBuffer b (length p) o.valid l;
          open_eq = o.open_eq;
          pfree = o.pfree;
          cfree = o.cfree;
        },
        contents_rest b o.valid (length p) l
            ∙ ap (drop (length p)) e
            ∙ drop-append_left p rest (length p) refl,
      )

  -- On an open ring that begins with a packet that is not too large, and whose message `handle`
  -- accepts, a round of `processor` returns the message of that packet and takes exactly the packet
  -- off the ring.
  pub process_round_lem :
      (b : Buffer) (p rest : List ℕ)
      → IsOpen b
      → Carries c Good p
      → length p ≤ max_size
      → ((m : M) → Good m → handle m ≡ ok tt)
      → contents b ≡ p ++ rest
      → (m : M) × (b' : Buffer) × (process_round c max_size handle spare b ≡ (b', returned (ok m)))
        × Good m
        × IsOpen b'
        × (contents b' ≡ rest)
  unfolding process_round
  process_round_lem b p rest o v fits accepts e =
      let front : contents b ≡ v.first ∷ (put_uvarint (length v.body) ++ (v.body ++ rest)) =
        e
        ∙ ap (λ xs. xs ++ rest) v.bytes_eq
        ∙ ap (λ xs. v.first ∷ xs) (append_assoc (put_uvarint (length v.body)) v.body rest) in
      let (t, f) =
        peek_message_size_lem b v.first (length v.body) (v.body ++ rest) o v.small front in
      let b₁ = touched b t b.cwait b.pwait in
      let o₁ = touched-IsOpen b t b.cwait b.pwait o in
      let (m, good, (t₂, f₂)) = peek_message_lem b₁ p rest v o₁ e in
      let b₂ = touched b t₂ b.cwait b.pwait in
      let (b', f₃, o', e') =
        handled_lem b₂ p rest m (touched-IsOpen b t₂ b.cwait b.pwait o) (accepts m good) e in
      let small : ltb max_size (length p) ≡ false = ground arith in
      (
        m,
        b',
        ap (λ r. then_ok r sized) f
            ∙ ap (λ n. sized b₁ (v.first / 16, n)) (length-packet p v)
            ∙ ap
                (λ z.
                  if z
                  then (b₁, returned (err packet_too_large))
                  else then_ok (peek_message c b₁ (v.first / 16) (length p) spare)
                      (handled (length p)))
                small
            ∙ ap (λ r. then_ok r (handled (length p))) f₂
            ∙ f₃,
        good,
        o',
        e',
      )
