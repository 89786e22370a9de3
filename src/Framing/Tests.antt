-- ===== src/Framing/Tests.antt =====
-- Packets in a ring, and the theorems about them at concrete inputs.
use simq.Base.{
  ℕ, ◌^◌, ◌≡◌, refl, sym, ap, true, List, [], ◌∷◌, ◌++◌, length, length-append, replicate, inr,
  Outcome, ok, arith,
}
use simq.Wire.Codes.{valid_puback_reason_code, valid_pubrec_reason_code, default_flags}
use simq.Wire.VarInt.Laws.{groups, put_uvarint-groups}
use simq.Wire.Header.{type_of, set_type, with_flags}
use simq.Wire.Ack.{Puback, new_ack, packet_id_bytes, encode_to_buf}
use simq.Wire.Ack.Build.{packet, built, tail_bytes, reason_bytes}
use simq.Wire.Ack.Encode.{length_of, encode}
use simq.Wire.Ack.InPlace.{encode-encode_to_buf}
use simq.Wire.Strings.Laws.{property_bytes}
use simq.Buffer.{Buffer, returned, empty_buffer}
use simq.Buffer.Invariant.{contents}
use simq.Buffer.Writes.{appended}
use simq.Buffer.Run.{IsOpen, empty_buffer-IsOpen}
use simq.Framing.{process_round, write_message}
use simq.Framing.Carry.{process_round_lem}
use simq.Framing.Send.{write_message_lem}
use simq.Framing.Stream.{messages_arrive, AllSame, AllSound, written, processed, messages}
use simq.Framing.Acks.{acks, IsFresh, IsSound, Same, acks-Writes, acks-Carries}

abbrev ack : ℕ → ℕ → Puback
ack first id = record {
  header = record {
    remlen = 0;
    mtypeflags = first ∷ [];
    packet_id = 0 ∷ id ∷ [];
    dbuf = [];
    dirty = true;
  };
  reason_code = 0;
  property_len = 0;
  reason_str = 110 ∷ 111 ∷ [];
  user_property = (107 ∷ []) ∷ (118 ∷ []) ∷ [];
}

abbrev fresh : ℕ → Puback
fresh first = record {
  header = record { remlen = 0; mtypeflags = first ∷ []; packet_id = []; dbuf = []; dirty = true };
  reason_code = 0;
  property_len = 0;
  reason_str = [];
  user_property = [];
}

ack-IsSound : IsSound (ack 0x40 7) 0x40 0 7
unfolding reason_bytes property_bytes default_flags valid_puback_reason_code
ack-IsSound = record {
  is_ack = record {
    changed = refl;
    one_byte = refl;
    known_type = refl;
    known_flags = refl;
    reason_short = omega arith;
    properties_short = (omega arith, (omega arith, tt));
    small = omega arith;
  };
  id_eq = refl;
  known_code = refl;
  reason_followed = inr (λ e. cc);
}

rec-IsSound : IsSound (ack 0x50 8) 0x50 0 8
unfolding reason_bytes property_bytes default_flags valid_pubrec_reason_code
rec-IsSound = record {
  is_ack = record {
    changed = refl;
    one_byte = refl;
    known_type = refl;
    known_flags = refl;
    reason_short = omega arith;
    properties_short = (omega arith, (omega arith, tt));
    small = omega arith;
  };
  id_eq = refl;
  known_code = refl;
  reason_followed = inr (λ e. cc);
}

ack-IsFresh : IsFresh (fresh 0x40) 0x40
unfolding new_ack set_type type_of with_flags default_flags
ack-IsFresh = record {
  new_eq = refl;
  type_eq = refl;
  no_reason = refl;
  no_length = refl;
  no_user = refl;
}

rec-IsFresh : IsFresh (fresh 0x50) 0x50
unfolding new_ack set_type type_of with_flags default_flags
rec-IsFresh = record {
  new_eq = refl;
  type_eq = refl;
  no_reason = refl;
  no_length = refl;
  no_user = refl;
}

abbrev behind_header : ℕ → List ℕ
behind_header id = 0 ∷ id ∷ 0 ∷ 12 ∷ 31 ∷ 0 ∷ 2 ∷ 110 ∷ 111 ∷ 38 ∷ 0 ∷ 1 ∷ 107 ∷ 0 ∷ 1 ∷ 118 ∷ []

packet-ack : (first id : ℕ) → packet (ack first id) first ≡ first ∷ 16 ∷ behind_header id
unfolding packet packet_id_bytes built tail_bytes reason_bytes property_bytes groups
packet-ack first id =
    ap (λ l. first ∷ (l ++ behind_header id)) (put_uvarint-groups 16 (omega arith))

encode-encode_to_buf_example :
    (length_of (ack 0x40 7) ≡ ok (length (packet (ack 0x40 7) 0x40)))
    × (encode (ack 0x40 7) 18 ≡ encode_to_buf (ack 0x40 7))
    × (encode_to_buf (ack 0x40 7) ≡ ok (packet (ack 0x40 7) 0x40, built (ack 0x40 7)))
encode-encode_to_buf_example =
    encode-encode_to_buf (ack 0x40 7) 0x40 0 7 18 ack-IsSound.is_ack refl
      (omega (arith, ap length (packet-ack 0x40 7)))

-- A ring of 32 bytes, in which a packet goes round the end.
abbrev ring : Buffer
ring = record (empty_buffer (2 ^ 5)) { ppos = 20; cpos = 20 }

ring-IsOpen : IsOpen ring
ring-IsOpen = record {
  valid = record {
    exponent = 5;
    size_eq = refl;
    mask_eq = refl;
    buf_eq = refl;
    gate_le = omega arith;
    cpos_le = omega arith;
    ppos_le = omega arith;
  };
  open_eq = refl;
  pfree = refl;
  cfree = refl;
}

write_message_lem_example :
    (g : ℕ) × (write_message acks ring 0 (ack 0x40 7) ≡ (
      appended ring g (packet (ack 0x40 7) 0x40),
      returned (ok (length (packet (ack 0x40 7) 0x40))),
    ))
    × IsOpen (appended ring g (packet (ack 0x40 7) 0x40))
    × (contents (appended ring g (packet (ack 0x40 7) 0x40))
        ≡ contents ring ++ packet (ack 0x40 7) 0x40)
write_message_lem_example =
    write_message_lem acks 0 (ack 0x40 7) ring (packet (ack 0x40 7) 0x40) ring-IsOpen
      (acks-Writes (ack 0x40 7) (fresh 0x40) 0x40 0 7 ack-IsSound)
      (omega (arith, ap length (packet-ack 0x40 7)))

abbrev accept : Puback → Outcome (Unit {0})
accept p = ok tt

abbrev sent : List (Puback × List ℕ)
sent = (ack 0x40 7, packet (ack 0x40 7) 0x40) ∷ (ack 0x50 8, packet (ack 0x50 8) 0x50) ∷ []

sent-AllSound : AllSound acks Same 18 sent
sent-AllSound = (
  (
    acks-Writes (ack 0x40 7) (fresh 0x40) 0x40 0 7 ack-IsSound,
    acks-Carries (ack 0x40 7) (fresh 0x40) 0x40 0 7 ack-IsSound ack-IsFresh,
    omega (arith, ap length (packet-ack 0x40 7)),
  ),
  (
    (
      acks-Writes (ack 0x50 8) (fresh 0x50) 0x50 0 8 rec-IsSound,
      acks-Carries (ack 0x50 8) (fresh 0x50) 0x50 0 8 rec-IsSound rec-IsFresh,
      omega (arith, ap length (packet-ack 0x50 8)),
    ),
    tt,
  ),
)

messages_arrive_example :
    AllSame acks Same 18
      (messages acks sent)
      (processed acks 18 accept [] 2 (written acks 0 (empty_buffer (2 ^ 11)) (messages acks sent)))
messages_arrive_example =
    messages_arrive acks Same 18 0 accept [] (empty_buffer (2 ^ 11)) sent (empty_buffer-IsOpen 11)
      refl sent-AllSound
      (omega (
        arith,
        length-append (packet (ack 0x40 7) 0x40) (packet (ack 0x50 8) 0x50 ++ []),
        length-append (packet (ack 0x50 8) 0x50) [],
        ap length (packet-ack 0x40 7),
        ap length (packet-ack 0x50 8),
      ))
      (λ m m' same. refl)

-- A packet and the first two bytes of another.
abbrev loaded : Buffer
loaded = record (empty_buffer (2 ^ 5)) {
  buf = 0x40 ∷ 16 ∷ (behind_header 7 ++ (0x50 ∷ 16 ∷ replicate 12 0));
  ppos = 20;
}

loaded-IsOpen : IsOpen loaded
loaded-IsOpen = record {
  valid = record {
    exponent = 5;
    size_eq = refl;
    mask_eq = refl;
    buf_eq = refl;
    gate_le = omega arith;
    cpos_le = omega arith;
    ppos_le = omega arith;
  };
  open_eq = refl;
  pfree = refl;
  cfree = refl;
}

abbrev marked : Buffer
marked = record loaded { buf = 0x40 ∷ 255 ∷ 255 ∷ 255 ∷ 255 ∷ replicate 27 0; ppos = 5 }

marked-IsOpen : IsOpen marked
marked-IsOpen = record {
  valid = record {
    exponent = 5;
    size_eq = refl;
    mask_eq = refl;
    buf_eq = refl;
    gate_le = omega arith;
    cpos_le = omega arith;
    ppos_le = omega arith;
  };
  open_eq = refl;
  pfree = refl;
  cfree = refl;
}

process_round_lem_example :
    (m : Puback) × (b' : Buffer) × (process_round acks 18 accept [] loaded ≡ (b', returned (ok m)))
    × Same (ack 0x40 7) m
    × IsOpen b'
    × (contents b' ≡ 0x50 ∷ 16 ∷ [])
process_round_lem_example =
    process_round_lem acks (Same (ack 0x40 7)) 18 accept [] loaded (packet (ack 0x40 7) 0x40)
      (0x50 ∷ 16 ∷ []) loaded-IsOpen
      (acks-Carries (ack 0x40 7) (fresh 0x40) 0x40 0 7 ack-IsSound ack-IsFresh)
      (omega (arith, ap length (packet-ack 0x40 7))) (λ m same. refl)
      (ap (λ p. p ++ (0x50 ∷ 16 ∷ [])) (sym (packet-ack 0x40 7)))
