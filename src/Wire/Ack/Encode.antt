-- ===== src/Wire/Ack/Encode.antt =====
-- `Len` and `Encode` of puback.go: a packet written into a slice of the caller.
use simq.Base.{
  ℕ, ◌+◌, ◌-◌, ◌%◌, ◌^◌, ◌&&◌, List, [], ◌∷◌, ◌++◌, Option, none, some, ltb, leb, ◌==◌, length,
  take, if◌then◌else◌, Outcome, Error, ok, err, panic, stuck, ◌>>=◌, ◌>>◌, reject, require,
  insufficient_buffer,
}
use simq.Wire.Codes.{success, reason_string, user_property}
use simq.Wire.VarInt.{lb_encode}
use simq.Wire.Strings.{write_lp_bytes}
use simq.Wire.Header.{Header, set_remaining_length, header_msglen, encode_header, with_flags}
use simq.Wire.Ack.{Puback, build}

-- A key or a value in a slice of `room` bytes.
abbrev pub write_part_at : ℕ → List ℕ → Outcome (List ℕ)
write_part_at room b =
    if length b == 0 then (require (leb 2 room) >> ok (0 ∷ 0 ∷ [])) else write_lp_bytes room b

-- A string that cannot be written ends the list: what stands before it, and the error.
abbrev pub then_part :
    Outcome (List ℕ)
    → List ℕ
    → (List ℕ → Outcome (List ℕ × Option Error))
    → Outcome (List ℕ × Option Error)
then_part (ok b) done f = f b
then_part (err e) done f = ok (done, some e)
then_part panic done f = panic
then_part stuck done f = stuck

abbrev pub behind : List ℕ → Outcome (List ℕ × Option Error) → Outcome (List ℕ × Option Error)
behind done r = r >>= λ (b, e). ok (done ++ b, e)

-- `writeUserProperty` into a slice of `room` bytes.
unfoldable pub write_user_property : ℕ → List (List ℕ) → Outcome (List ℕ × Option Error)
write_user_property room [] = ok ([], none)
write_user_property room (key ∷ []) =
    require (ltb 0 room)
    >> then_part (write_part_at (room - 1) key) (user_property ∷ [])
        (λ k. require (leb (3 + length k) room) >> ok (user_property ∷ (k ++ (0 ∷ 0 ∷ [])), none))
write_user_property room (key ∷ val ∷ rest) =
    require (ltb 0 room)
    >> then_part (write_part_at (room - 1) key) (user_property ∷ []) (λ k.
      then_part (write_part_at (room - 1 - length k) val) (user_property ∷ k) (λ v.
        behind (user_property ∷ (k ++ v))
          (write_user_property (room - 1 - length k - length v) rest)))

-- The reason string property.
unfoldable pub write_reason_at : ℕ → List ℕ → Outcome (List ℕ)
write_reason_at room reason =
    if length reason == 0
    then ok []
    else (require (ltb 0 room)
        >> (write_lp_bytes (room - 1) reason >>= λ b. ok (reason_string ∷ b)))

-- The properties behind a property length that is not 0. A property length that is cut off by the
-- end of the slice makes the next index panic; an error of `writeUserProperty` is dropped.
unfoldable pub write_properties_at : ℕ → Puback → Outcome (List ℕ)
write_properties_at room p = do
  l ← lb_encode p.property_len
  require (leb (length l) room)
  r ← write_reason_at (room - length l) p.reason_str
  (u, dropped) ← write_user_property (room - length l - length r) p.user_property
  ok (l ++ (r ++ u))

-- What stands behind the packet identifier.
unfoldable pub write_tail_at : ℕ → Puback → Outcome (List ℕ)
write_tail_at room p =
    if p.header.remlen == 2 && p.reason_code == success
    then ok []
    else (require (ltb 0 room)
        >> (if p.property_len == 0
            then ok (p.reason_code ∷ [])
            else (write_properties_at (room - 1) p >>= λ b. ok (p.reason_code ∷ b))))

abbrev pub packet_id_at : Header → List ℕ
packet_id_at h = if leb 2 (length h.packet_id) then take 2 h.packet_id else 0 ∷ 0 ∷ []

-- `Encode` into a slice of `room` bytes: what it writes, and the message with its lengths built.
unfoldable pub encode : Puback → ℕ → Outcome (List ℕ × Puback)
encode p room =
    let changed = do
      p₁ ← build p
      reject (ltb room (header_msglen p₁.header + p₁.header.remlen)) insufficient_buffer
      h ← set_remaining_length p₁.header (p₁.header.remlen % 2 ^ 32)
      let p₂ = record p₁ { header = h }
      top ← encode_header p₂.header room
      require (leb (length top + 2) room)
      tail ← write_tail_at (room - length top - 2) p₂
      ok (top ++ (packet_id_at p₂.header ++ tail), record p₂ { header = with_flags h })
    in if p.header.dirty
      then changed
      else (if ltb room (length p.header.dbuf)
          then err insufficient_buffer
          else ok (p.header.dbuf, p))

-- `Len`. It leaves the lengths built, which `Encode` builds again.
unfoldable pub length_of : Puback → Outcome ℕ
length_of p =
    if p.header.dirty
    then (build p >>= λ p₁. elim (set_remaining_length p₁.header (p₁.header.remlen % 2 ^ 32)) [
      | ok h ↦ ok (header_msglen h + p₁.header.remlen)
      | _ ↦ ok 0
    ])
    else ok (length p.header.dbuf)
