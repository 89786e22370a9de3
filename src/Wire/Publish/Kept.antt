-- ===== src/Wire/Publish/Kept.antt =====
-- A PUBLISH that is read keeps the bytes that it was read from.
use simq.Base.{
  ℕ, ◌+◌, ◌-◌, ◌≡◌, refl, ◌∙◌, false, List, Outcome, ok, err, panic, stuck, ◌>>=◌, arith,
}
use simq.Wire.Slice.{Slice, from}
use simq.Wire.Header.{Header, decode_header, read_remaining, check_remaining, from_before}
use simq.Wire.Publish.{PublishMessage, decode_publish, decode_publish_rest, read_id, bytes_at}
use simq.Wire.VarInt.{Uvarint, value, short, overflow}

check_remaining-dbuf :
    (h h' : Header) (v total n : ℕ) (body : Outcome Slice)
    → check_remaining h v total body ≡ ok (n, h')
    → h'.dbuf ≡ h.dbuf
unfolding check_remaining
check_remaining-dbuf h h' v total n body e = ground (arith, e)

read_remaining-dbuf :
    (h h' : Header) (src : Slice) (u : Uvarint) (n : ℕ)
    → read_remaining h src u ≡ ok (n, h')
    → h'.dbuf ≡ h.dbuf
unfolding read_remaining
read_remaining-dbuf h h' src (value v k) n e =
    check_remaining-dbuf h h' v (1 + k) n (from src (1 + k)) e
read_remaining-dbuf h h' src short n e = check_remaining-dbuf h h' 0 1 n (from src 1) e
read_remaining-dbuf h h' src (overflow k) n e =
    check_remaining-dbuf h h' 0 (1 - k) n (from_before src k) e

decode_header-dbuf :
    (h h' : Header) (src : Slice) (n : ℕ) → decode_header h src ≡ ok (n, h') → h'.dbuf ≡ src.bytes
unfolding decode_header
decode_header-dbuf h h' src n e = ground (arith, e)

read_id-dbuf :
    (h h' : Header) (src : Slice) (total n : ℕ)
    → read_id h src total ≡ ok (h', n)
    → h'.dbuf ≡ h.dbuf
unfolding read_id
read_id-dbuf h h' src total n e = ground (arith, e)

rest-dirty :
    (p m : PublishMessage) (src : Slice) (hn : ℕ) (h : Header) (t : List ℕ) (total n : ℕ)
    → decode_publish_rest p src hn h t total ≡ ok (n, m)
    → (m.header.dirty ≡ false) × (m.header.dbuf ≡ h.dbuf)
unfolding decode_publish_rest
rest-dirty p m src hn h t total n e = (ground (arith, e), ground (arith, e))

-- A chain of calls that succeeds: its first call does.
bind_ok :
    {A B : Type 0} (r : Outcome A) (f : A → Outcome B) (z : B)
    → (r >>= f) ≡ ok z
    → (a : A) × (r ≡ ok a) × (f a ≡ ok z)
bind_ok (ok a) f z e = (a, refl, e)
bind_ok (err x) f z e = absurd (cc e)
bind_ok panic f z e = absurd (cc e)
bind_ok stuck f z e = absurd (cc e)

-- What `Decode` returns is not dirty and holds the bytes that it read.
pub decode_publish-dbuf :
    (p m : PublishMessage) (src : Slice) (n : ℕ)
    → decode_publish p src ≡ ok (n, m)
    → (m.header.dirty ≡ false) × (m.header.dbuf ≡ src.bytes)
unfolding decode_publish
decode_publish-dbuf p m src n e =
    let ((hn, h), e₁, r₁) = bind_ok (decode_header p.header src) _ (n, m) e in
    let ((t, at₁), e₂, r₂) = bind_ok (bytes_at src hn) _ (n, m) r₁ in
    let ((h', at₂), e₃, r₃) = bind_ok (read_id h src at₁) _ (n, m) r₂ in
    let (clean, same) = rest-dirty p m src hn h' t at₂ n r₃ in
    (clean, same ∙ read_id-dbuf h h' src at₁ at₂ e₃ ∙ decode_header-dbuf p.header h src hn e₁)
