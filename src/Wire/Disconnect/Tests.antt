-- ===== src/Wire/Disconnect/Tests.antt =====
-- DISCONNECT on a concrete packet.
use simq.Base.{◌+◌, ◌*◌, ◌^◌, ◌≡◌, refl, true, [], ◌∷◌, ok}
use simq.Wire.Codes.{valid_disconnect_reason_code}
use simq.Wire.Disconnect.{DisconnectMessage, decode_disconnect}
use simq.Wire.Disconnect.Expiry.{with_expiry, decode_disconnect-expiry}

abbrev fresh : DisconnectMessage
fresh = record {
  header = record { remlen = 0; mtypeflags = 0xe0 ∷ []; packet_id = []; dbuf = []; dirty = true };
  reason_code = 0;
  property_len = 0;
  session_expiry_interval = 0;
  reason_str = [];
  user_property = [];
  server_ref = [];
}

-- An interval of 60 seconds.
decode_disconnect-expiry_example :
    (q : DisconnectMessage) × (decode_disconnect fresh
        (record { bytes = with_expiry 4 0 0 0 60; spare = [] })
      ≡ ok (9, q))
    × (q.reason_code ≡ 4)
    × (q.session_expiry_interval ≡ 0xe0 * 2 ^ 24 + 7 * 2 ^ 16 + 4 * 256 + 5)
unfolding valid_disconnect_reason_code
decode_disconnect-expiry_example = decode_disconnect-expiry fresh 4 0 0 0 60 [] refl refl
