-- ===== src/Wire/Disconnect/Expiry.antt =====
-- DISCONNECT: which bytes become the session expiry interval.
use simq.Base.{ℕ, ◌+◌, ◌*◌, ◌^◌, ◌≡◌, refl, true, List, [], ◌∷◌, ok, arith}
use simq.Wire.Codes.{valid_disconnect_reason_code, default_flags}
use simq.Wire.Slice.{at, from, sub, copy_len}
use simq.Wire.VarInt.{uvarint, lb_decode}
use simq.Wire.Strings.{decode_user_property}
use simq.Wire.Header.{decode_header, type_of, flags, read_remaining, check_remaining, with_flags}
use simq.Wire.Publish.{uint32_at, integer_at}
use simq.Wire.Disconnect.{
  DisconnectMessage, read_expiry, read_bytes, decode_end, decode_reason_str, decode_properties,
  decode_body, decode_disconnect,
}

-- A DISCONNECT with the reason code `c` and the session expiry interval in the bytes `e₁` to `e₄`.
abbrev pub with_expiry : ℕ → ℕ → ℕ → ℕ → ℕ → List ℕ
with_expiry c e₁ e₂ e₃ e₄ = 0xe0 ∷ 7 ∷ c ∷ 5 ∷ 0x11 ∷ e₁ ∷ e₂ ∷ e₃ ∷ e₄ ∷ []

-- `Decode` goes through a DISCONNECT with a valid reason code and a session expiry interval, but what
-- it takes for the interval are the first four bytes of the packet, whatever the interval is.
pub decode_disconnect-expiry :
    (r : DisconnectMessage) (c e₁ e₂ e₃ e₄ : ℕ) (spare : List ℕ)
    → r.header.mtypeflags ≡ 0xe0 ∷ []
    → valid_disconnect_reason_code c ≡ true
    → (q : DisconnectMessage) × (decode_disconnect r
          (record { bytes = with_expiry c e₁ e₂ e₃ e₄; spare = spare })
        ≡ ok (9, q))
      × (q.reason_code ≡ c)
      × (q.session_expiry_interval ≡ 0xe0 * 2 ^ 24 + 7 * 2 ^ 16 + c * 256 + 5)
unfolding decode_disconnect decode_header type_of flags read_remaining check_remaining with_flags
    default_flags uvarint decode_body decode_properties integer_at lb_decode read_expiry uint32_at
    decode_reason_str read_bytes decode_end decode_user_property at from sub copy_len
decode_disconnect-expiry r c e₁ e₂ e₃ e₄ spare t v = (
  record r {
    header = record r.header {
      remlen = 7;
      mtypeflags = 0xe0 ∷ [];
      dbuf = with_expiry c e₁ e₂ e₃ e₄;
    };
    reason_code = c;
    property_len = 5;
    session_expiry_interval = 0xe0 * 2 ^ 24 + 7 * 2 ^ 16 + c * 256 + 5;
    user_property = [];
  },
  ground (arith, t, v),
  refl,
  refl,
)
