-- ===== src/Wire/Disconnect.antt =====
-- DISCONNECT: `DisconnectMessage` of corev5/v2/message/disconnect.go, read by `Decode`. An error result
-- does not say how many bytes were gone through.
pub mod Expiry
mod Tests
use simq.Base.{
  ℕ, ◌+◌, Bool, true, false, not, List, [], ltb, ◌==◌, if◌then◌else◌, Outcome, ok, err, panic,
  stuck, ◌>>=◌, ◌>>◌, reject, protocol_error,
}
use simq.Wire.Codes.{
  reason_string, session_expiry, server_reference, success, valid_disconnect_reason_code,
}
use simq.Wire.Slice.{Slice, at, from}
use simq.Wire.Strings.{decode_user_property}
use simq.Wire.Header.{Header, decode_header}
use simq.Wire.Publish.{has, uint32_at, integer_at, bytes_at}

pub record DisconnectMessage : Type 0 where
  pub header : Header
  pub reason_code : ℕ
  pub property_len : ℕ
  pub session_expiry_interval : ℕ
  pub reason_str : List ℕ
  pub user_property : List (List ℕ)
  pub server_ref : List ℕ

-- A property is read, and whether it comes a second time: then `Decode` returns, with no error.
abbrev pub Field : Type 0 → Type 0
Field A = A × (ℕ × Bool)

-- The session expiry interval, which is read at the start of the packet, not behind its tag.
unfoldable pub read_expiry : DisconnectMessage → Slice → ℕ → Outcome (Field ℕ)
read_expiry m src total =
    let present = do
      (v, _) ← uint32_at src 0
      reject (v == 0) protocol_error
      ok (v, (total + 5, has src (total + 5) session_expiry))
    in if has src total session_expiry
      then present
      else ok (m.session_expiry_interval, (total, false))

-- The reason string and the server reference.
unfoldable pub read_bytes : ℕ → List ℕ → Slice → ℕ → Outcome (Field (List ℕ))
read_bytes tag default src total =
    let present = do (b, total') ← bytes_at src (total + 1); ok (b, (total', has src total' tag))
    in if has src total tag then present else ok (default, (total, false))

-- `Decode` from the user properties on.
unfoldable pub decode_end : DisconnectMessage → Slice → ℕ → Outcome (ℕ × DisconnectMessage)
decode_end m src total = do
  s ← from src total
  (u, n) ← decode_user_property s
  (r, (end, twice)) ← read_bytes server_reference m.server_ref src (total + n)
  ok (end, record m { user_property = u; server_ref = r })

-- From the reason string on.
unfoldable pub decode_reason_str : DisconnectMessage → Slice → ℕ → Outcome (ℕ × DisconnectMessage)
decode_reason_str m src total = do
  (r, (at₁, twice)) ← read_bytes reason_string m.reason_str src total
  let m' = record m { reason_str = r }
  let rest = decode_end m' src at₁
  if twice then ok (at₁, m') else rest

-- From the property length on.
unfoldable pub decode_properties : DisconnectMessage → Slice → ℕ → Outcome (ℕ × DisconnectMessage)
decode_properties m src total = do
  (n, at₁) ← integer_at src total
  (v, (at₂, twice)) ← read_expiry m src at₁
  let m' = record m { property_len = n; session_expiry_interval = v }
  let rest = decode_reason_str m' src at₂
  if twice then ok (at₂, m') else rest

-- From the reason code on.
unfoldable pub decode_body : DisconnectMessage → Slice → ℕ → Outcome (ℕ × DisconnectMessage)
decode_body m src total = do
  c ← at src total
  reject (not (valid_disconnect_reason_code c)) protocol_error
  let m' = record m { reason_code = c }
  let rest = decode_properties m' src (total + 1)
  if ltb m.header.remlen 2 then ok (total + 1, record m' { property_len = 0 }) else rest

-- `Decode`. It leaves `dirty` as it is.
unfoldable pub decode_disconnect : DisconnectMessage → Slice → Outcome (ℕ × DisconnectMessage)
decode_disconnect m src = do
  (total, h) ← decode_header m.header src
  let m' = record m { header = h }
  let rest = decode_body m' src total
  if h.remlen == 0 then ok (total, record m' { reason_code = success }) else rest
