-- ===== src/Framing/Stream.antt =====
-- Messages one after the other: what one side writes, the other side processes.
use simq.Base.{
  ℕ, zero, suc, ◌+◌, ◌≤◌, ◌≡◌, refl, sym, ap, subst, ◌∙◌, List, [], ◌∷◌, ◌++◌, append_assoc,
  append-nil, length, length-append, Outcome, ok, arith,
}
use simq.Buffer.{Buffer, Progress, returned, len}
use simq.Buffer.Invariant.{contents, length-contents}
use simq.Buffer.Writes.{appended}
use simq.Buffer.Run.{IsOpen}
use simq.Framing.{Codec, write_message, process_round}
use simq.Framing.Carry.{Carries, process_round_lem}
use simq.Framing.Send.{Writes, write_message_lem}

length_zero : (xs : List ℕ) → length xs ≡ 0 → xs ≡ []
length_zero [] e = refl
length_zero (x ∷ xs) e = absurd (omega arith)

module _ {M : Type 0} (c : Codec M) where
  -- The ring when all the messages are written.
  unfoldable pub written : ℕ → Buffer → List M → Buffer
  written outtmp b [] = b
  written outtmp b (m ∷ ms) = written outtmp (write_message c b outtmp m).0 ms

  -- What `n` rounds return.
  unfoldable pub processed :
      ℕ → (M → Outcome (Unit {0})) → List ℕ → ℕ → Buffer → List (Progress (Outcome M))
  processed max_size handle spare zero b = []
  processed max_size handle spare (suc n) b =
      let (b', r) = process_round c max_size handle spare b in
      r ∷ processed max_size handle spare n b'

  -- Messages with their bytes.
  abbrev pub messages : List (M × List ℕ) → List M
  messages [] = []
  messages ((m, p) ∷ ps) = m ∷ messages ps

  abbrev pub stream : List (M × List ℕ) → List ℕ
  stream [] = []
  stream ((m, p) ∷ ps) = p ++ stream ps

  module _ (Same : M → M → Type 0) (max_size : ℕ) where
    -- Each is a packet, not too large, that is read back as a message with the `Same` content.
    abbrev pub AllSound : List (M × List ℕ) → Type 0
    AllSound [] = Unit {0}
    AllSound ((m, p) ∷ ps) =
        (Writes c m p × Carries c (Same m) p × (length p ≤ max_size)) × AllSound ps

    -- The results are the messages, in their order.
    abbrev pub AllSame : List M → List (Progress (Outcome M)) → Type 0
    AllSame [] [] = Unit {0}
    AllSame (m ∷ ms) (returned (ok m') ∷ rs) = Same m m' × AllSame ms rs
    AllSame ms rs = ⊥

    written_lem :
        (outtmp : ℕ) (b : Buffer) (ps : List (M × List ℕ))
        → IsOpen b
        → AllSound ps
        → len b + length (stream ps) ≤ b.size
        → IsOpen (written outtmp b (messages ps))
          × (contents (written outtmp b (messages ps)) ≡ contents b ++ stream ps)
    unfolding written
    written_lem outtmp b [] o s fits = (o, sym (append-nil (contents b)))
    written_lem outtmp b ((m, p) ∷ ps) o ((w, v, small), s) fits =
        let room : length p + (len b + length (stream ps)) ≤ b.size =
          omega (arith, length-append p (stream ps)) in
        let (g, e, o', f) = write_message_lem c outtmp m b p o w (omega arith) in
        let (o₂, f₂) =
          written_lem outtmp (appended b g p) ps o' s (omega (arith, o.valid.cpos_le)) in
        (
          subst (λ r. IsOpen (written outtmp r.0 (messages ps))) (sym e) o₂,
          ap (λ r. contents (written outtmp r.0 (messages ps))) e
              ∙ f₂
              ∙ ap (λ xs. xs ++ stream ps) f
              ∙ append_assoc (contents b) p (stream ps),
        )

    processed_lem :
        (handle : M → Outcome (Unit {0})) (spare : List ℕ) (b : Buffer) (ps : List (M × List ℕ))
        → IsOpen b
        → AllSound ps
        → ((m m' : M) → Same m m' → handle m' ≡ ok tt)
        → contents b ≡ stream ps
        → AllSame (messages ps) (processed max_size handle spare (length (messages ps)) b)
    unfolding processed
    processed_lem handle spare b [] o s accepts e = tt
    processed_lem handle spare b ((m, p) ∷ ps) o ((w, v, small), s) accepts e =
        let (m', b', f, same, o', e') =
          process_round_lem c (Same m) max_size handle spare b p (stream ps) o v small (accepts m)
            e in
        subst
          (λ r.
            AllSame (m ∷ messages ps)
              (r.1 ∷ processed max_size handle spare (length (messages ps)) r.0))
          (sym f) (same, processed_lem handle spare b' ps o' s accepts e')

    -- Messages that `writeMessage` puts into an empty open ring, all together no longer than the ring,
    -- come out of as many rounds of `processor`, each once, in their order and with the same content,
    -- when the handler accepts what has it.
    pub messages_arrive :
        (outtmp : ℕ) (handle : M → Outcome (Unit {0})) (spare : List ℕ) (b : Buffer)
        (ps : List (M × List ℕ))
        → IsOpen b
        → len b ≡ 0
        → AllSound ps
        → length (stream ps) ≤ b.size
        → ((m m' : M) → Same m m' → handle m' ≡ ok tt)
        → AllSame (messages ps) (
            processed max_size handle spare (length (messages ps)) (written outtmp b (messages ps)))
    messages_arrive outtmp handle spare b ps o nothing s fits accepts =
        let (o', e) = written_lem outtmp b ps o s (omega arith) in
        processed_lem handle spare (written outtmp b (messages ps)) ps o' s accepts
          (e ∙ ap (λ xs. xs ++ stream ps) (length_zero (contents b) (length-contents b ∙ nothing)))
