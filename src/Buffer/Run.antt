-- ===== src/Buffer/Run.antt =====
-- An open ring under any calls of its two sides.
use simq.Base.{
  ℕ, ◌+◌, ◌^◌, ◌≡◌, refl, sym, ap, ◌∙◌, bit_and, false, List, [], ◌∷◌, ◌++◌, none, some,
  length-replicate, length, take, drop, arith, ltb, leb, if◌then◌else◌, min, inl, inr, Bool-cases,
}
use simq.Buffer.{
  Buffer, empty_buffer, buffer_full, insufficient_data, Progress, returned, failed, waits, locked,
  Call, len, write, read_peek, read_wait, read_commit, keep_tmp, peeked,
}
use simq.Buffer.Invariant.{IsBuffer, contents, length-contents, advanced, advanced-IsBuffer}
use simq.Buffer.Reads.{read_peek_lem, read_wait_lem, read_commit_lem, contents_rest}
use simq.Buffer.Writes.{write_lem, write-waits, appended}
use simq.Buffer.Spec
use simq.Buffer.Spec.{Pipe, Op, do_write, do_peek, do_wait, do_commit, Reply, got, count}
use native.Mathlib.Decide.{dec_lt}

-- What a client sees of the ring.
abbrev pub pipe : Buffer → Pipe
pipe b = record { bytes = contents b; room = b.size }

-- A valid ring that is open, no mutex of which was left locked.
pub record IsOpen (b : Buffer) : Type 0 where
  pub valid : IsBuffer b
  pub open_eq : b.done ≡ false
  pub pfree : b.pheld ≡ false
  pub cfree : b.cheld ≡ false

pub empty_buffer-IsOpen : (k : ℕ) → IsOpen (empty_buffer (2 ^ k))
empty_buffer-IsOpen k = record {
  valid = record {
    exponent = k;
    size_eq = refl;
    mask_eq = refl;
    buf_eq = length-replicate (2 ^ k) 0;
    gate_le = omega arith;
    cpos_le = omega arith;
    ppos_le = omega arith;
  };
  open_eq = refl;
  pfree = refl;
  cfree = refl;
}

abbrev to_reply : {A : Type 0} → (A → Reply) → Call A → Call Reply
to_reply f (b, returned a) = (b, returned (f a))
to_reply f (b, failed e) = (b, failed e)
to_reply f (b, waits) = (b, waits)
to_reply f (b, locked) = (b, locked)

unfoldable pub step : Buffer → Op → Call Reply
step b (do_write p) = to_reply count (write b p)
step b (do_peek n) = to_reply (λ (xs, e). got xs e) (read_peek b n)
step b (do_wait n) = to_reply (λ xs. got xs none) (read_wait b n)
step b (do_commit n) = to_reply count (read_commit b n)

unfoldable pub run : Buffer → List Op → List (Progress Reply)
run b [] = []
run b (op ∷ ops) = let (b', r) = step b op in r ∷ run b' ops

-- The next pipe and the reply of the specification, and a ring that is open still.
abbrev Steps : Buffer → Call Reply → Pipe × Progress Reply → Type 0
Steps b r s = (b' : Buffer) × (r ≡ (b', s.1)) × IsOpen b' × (pipe b' ≡ s.0)

-- Fields that no byte depends on.
abbrev pub touched : Buffer → List ℕ → ℕ → ℕ → Buffer
touched b t c p = record b { tmp = t; cwait = c; pwait = p }

pub touched-IsOpen : (b : Buffer) (t : List ℕ) (c p : ℕ) → IsOpen b → IsOpen (touched b t c p)
touched-IsOpen b t c p o = record {
  valid = record {
    exponent = o.valid.exponent;
    size_eq = o.valid.size_eq;
    mask_eq = o.valid.mask_eq;
    buf_eq = o.valid.buf_eq;
    gate_le = o.valid.gate_le;
    cpos_le = o.valid.cpos_le;
    ppos_le = o.valid.ppos_le;
  };
  open_eq = o.open_eq;
  pfree = o.pfree;
  cfree = o.cfree;
}

same_step :
    (b : Buffer) (t : List ℕ) (c p : ℕ) (r : Progress Reply)
    → IsOpen b
    → Steps b (touched b t c p, r) (pipe b, r)
same_step b t c p r o = (touched b t c p, refl, touched-IsOpen b t c p o, refl)

pub keep_tmp-touched :
    (b : Buffer) (m : ℕ) → (t : List ℕ) × (keep_tmp b m ≡ touched b t b.cwait b.pwait)
unfolding keep_tmp
keep_tmp-touched b m = elim (Bool-cases (ltb b.size (bit_and b.cpos b.mask + m))) [
  | inl h ↦ (peeked b m, ground (arith, h))
  | inr h ↦ (b.tmp, ground (arith, h))
]

by_equations :
    (b : Buffer) (r r' : Call Reply) (s s' : Pipe × Progress Reply)
    → r ≡ r'
    → s ≡ s'
    → Steps b r' s'
    → Steps b r s
by_equations b r r' s s' e f (b', h, o, g) =
    (b', e ∙ h ∙ ap (λ z. (b', z.1)) (sym f), o, g ∙ ap (λ z. z.0) (sym f))

module _ (b : Buffer) (o : IsOpen b) where
  write_step : (p : List ℕ) → Steps b (step b (do_write p)) (Spec.step (pipe b) (do_write p))
  write_step p = elim (dec_lt b.size (length p + len b)) [
    | yes full ↦
        by_equations b _ (touched b b.tmp b.cwait (b.pwait + 1), waits) _ (pipe b, waits)
          (unfold step in ap (to_reply count) (write-waits b p o.valid o.open_eq o.pfree full))
          (unfold Spec.step in ground (arith, length-contents b))
          (same_step b b.tmp b.cwait (b.pwait + 1) waits o)
    | no room ↦
        let (g, e, v, c) = write_lem b p o.valid o.open_eq o.pfree o.cfree (omega arith) in
        by_equations b _ (appended b g p, returned (count (length p))) _
          (record { bytes = contents b ++ p; room = b.size }, returned (count (length p)))
          (unfold step in ap (to_reply count) e)
          (unfold Spec.step in ground (arith, length-contents b))
          (
            appended b g p,
            refl,
            record { valid = v; open_eq = o.open_eq; pfree = o.pfree; cfree = o.cfree },
            ap (λ xs. record { bytes = xs; room = b.size }) c,
          )
  ]

  too_long :
      (n : ℕ) (r : Call Reply) (s : Pipe × Progress Reply)
      → r ≡ (b, failed buffer_full)
      → s ≡ (pipe b, failed buffer_full)
      → Steps b r s
  too_long n r s e f =
      by_equations b r (b, failed buffer_full) s (pipe b, failed buffer_full) e f (b, refl, o, refl)

  got_step : (m : ℕ) (x : Reply) → Steps b (keep_tmp b m, returned x) (pipe b, returned x)
  got_step m x =
      let (t, e) = keep_tmp-touched b m in
      by_equations b _ (touched b t b.cwait b.pwait, returned x) _ (pipe b, returned x)
        (ap (λ z. (z, returned x)) e) refl (same_step b t b.cwait b.pwait (returned x) o)

  peek_step : (n : ℕ) → Steps b (step b (do_peek n)) (Spec.step (pipe b) (do_peek n))
  peek_step n = elim (dec_lt b.size n) [
    | yes l ↦
        too_long n _ _ (unfold step read_peek in ground arith) (unfold Spec.step in ground arith)
    | no l ↦ elim (dec_lt 0 (len b)) [
      | yes some_data ↦
          let x =
            got (take n (contents b)) (if leb n (len b) then none else some insufficient_data) in
          by_equations b _ (keep_tmp b (min n (len b)), returned x) _ (pipe b, returned x)
            (unfold step in
              ap (to_reply (λ (xs, e). got xs e))
                (read_peek_lem b o.valid n (omega arith) o.cfree some_data))
            (unfold Spec.step in ground (arith, length-contents b)) (got_step (min n (len b)) x)
      | no nothing ↦
          by_equations b _ (touched b b.tmp (b.cwait + 1) b.pwait, waits) _ (pipe b, waits)
            (unfold step read_peek in ground (arith, o.open_eq, o.cfree))
            (unfold Spec.step in ground (arith, length-contents b))
            (same_step b b.tmp (b.cwait + 1) b.pwait waits o)
    ]
  ]

  wait_step : (n : ℕ) → Steps b (step b (do_wait n)) (Spec.step (pipe b) (do_wait n))
  wait_step n = elim (dec_lt b.size n) [
    | yes l ↦
        too_long n _ _ (unfold step read_wait in ground arith) (unfold Spec.step in ground arith)
    | no l ↦ elim (dec_lt (len b) n) [
      | yes short ↦
          by_equations b _ (b, waits) _ (pipe b, waits)
            (unfold step read_wait in ground (arith, o.open_eq, o.cfree, o.valid.cpos_le))
            (unfold Spec.step in ground (arith, length-contents b)) (b, refl, o, refl)
      | no there ↦
          let x = got (take n (contents b)) none in
          by_equations b _ (keep_tmp b n, returned x) _ (pipe b, returned x)
            (unfold step in
              ap (to_reply (λ xs. got xs none)) (read_wait_lem b o.valid n (omega arith) o.cfree))
            (unfold Spec.step in ground (arith, length-contents b)) (got_step n x)
    ]
  ]

  commit_step : (n : ℕ) → Steps b (step b (do_commit n)) (Spec.step (pipe b) (do_commit n))
  commit_step n = elim (dec_lt b.size n) [
    | yes l ↦
        too_long n _ _ (unfold step read_commit in ground arith) (unfold Spec.step in ground arith)
    | no l ↦ elim (dec_lt (len b) n) [
      | yes short ↦
          by_equations b _ (b, failed insufficient_data) _ (pipe b, failed insufficient_data)
            (unfold step read_commit in ground (arith, o.valid.cpos_le))
            (unfold Spec.step in ground (arith, length-contents b)) (b, refl, o, refl)
      | no there ↦
          by_equations b _ (advanced b n, returned (count n)) _
            (record { bytes = drop n (contents b); room = b.size }, returned (count n))
            (unfold step in ap (to_reply count) (read_commit_lem b o.valid n (omega arith) o.pfree))
            (unfold Spec.step in ground (arith, length-contents b))
            (
              advanced b n,
              refl,
              record {
                valid = advanced-IsBuffer b n o.valid (omega arith);
                open_eq = o.open_eq;
                pfree = o.pfree;
                cfree = o.cfree;
              },
              ap (λ xs. record { bytes = xs; room = b.size })
                  (contents_rest b o.valid n (omega arith)),
            )
    ]
  ]

step_refines : (b : Buffer) (op : Op) → IsOpen b → Steps b (step b op) (Spec.step (pipe b) op)
step_refines b (do_write p) o = write_step b o p
step_refines b (do_peek n) o = peek_step b o n
step_refines b (do_wait n) o = wait_step b o n
step_refines b (do_commit n) o = commit_step b o n

-- On an open ring no call of the two sides finds a mutex locked for good, and the calls return,
-- fail and wait as those of a bounded queue of bytes do.
pub run_refines_pipe : (b : Buffer) (ops : List Op) → IsOpen b → run b ops ≡ Spec.run (pipe b) ops
unfolding run Spec.run
run_refines_pipe b [] o = refl
run_refines_pipe b (op ∷ ops) o =
    let (b', e, o', f) = step_refines b op o in
    ap (λ r. r.1 ∷ run r.0 ops) e
    ∙ ap (λ rs. (Spec.step (pipe b) op).1 ∷ rs)
        (run_refines_pipe b' ops o' ∙ ap (λ q. Spec.run q ops) f)
