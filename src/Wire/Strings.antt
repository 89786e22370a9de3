-- ===== src/Wire/Strings.antt =====
-- Length-prefixed bytes (message.go) and user properties (util.go) of corev5/v2/message.
-- A function that writes to a `bytes.Buffer` returns what it appends.
pub mod Laws
pub mod Errors
use simq.Base.{
  ℕ, zero, suc, ◌+◌, ◌-◌, ◌*◌, ◌/◌, ◌%◌, Bool, true, false, List, [], ◌∷◌, ◌++◌, ltb, leb, ◌==◌,
  length, if◌then◌else◌, Outcome, ok, err, panic, stuck, invalid_message, too_long,
  insufficient_buffer, ◌>>=◌, ◌>>◌, reject, set, ◌&&◌, not,
}
use simq.Wire.Codes.{user_property, max_lp_string}
use simq.Wire.Slice.{Slice, len, at, from, sub, copy_len}

-- `binary.BigEndian.Uint16` on the first two bytes.
abbrev pub uint16 : Slice → Outcome ℕ
uint16 s = do hi ← at s 0; lo ← at s 1; ok (hi * 256 + lo)

-- `readLPBytes`: the bytes, and how many bytes of `buf` they take with their length.
unfoldable pub read_lp_bytes : Slice → Outcome (List ℕ × ℕ)
read_lp_bytes buf = do
  reject (ltb (len buf) 2) invalid_message
  n ← uint16 buf
  reject (ltb (len buf) n) invalid_message
  b ← sub buf 2 (2 + n)
  ok (copy_len b n, 2 + n)

-- `writeToBufLPBytes` on a buffer that is not nil.
unfoldable pub write_to_buf_lp_bytes : List ℕ → Outcome (List ℕ)
write_to_buf_lp_bytes b =
    let n = length b in
    if ltb max_lp_string n then err too_long else ok (n / 256 % 256 ∷ n % 256 ∷ b)

-- `writeLPBytes` into a buffer with room for `room` bytes: what it writes.
unfoldable pub write_lp_bytes : ℕ → List ℕ → Outcome (List ℕ)
write_lp_bytes room b =
    let n = length b in
    if ltb max_lp_string n
    then err too_long
    else (if ltb room (2 + n) then err insufficient_buffer else ok (n / 256 % 256 ∷ n % 256 ∷ b))

-- `readLPBytes(src[total:])`.
unfoldable pub read_at : Slice → ℕ → Outcome (List ℕ × ℕ)
unfolding read_lp_bytes
read_at src total = do s ← from src total; read_lp_bytes s

-- The loop of `decodeUserProperty`; `out` is `userProperty`.
decode_user_property_loop : ℕ → Slice → ℕ → List (List ℕ) → Outcome (List (List ℕ) × ℕ)
decode_user_property_loop zero src total out = stuck
decode_user_property_loop (suc fuel) src total out =
    let pair = read_at src (total + 1) >>= λ (key, n). read_at src (total + 1 + n) >>= λ (val, n').
    decode_user_property_loop fuel src (total + 1 + n + n') (out ++ (key ∷ val ∷ [])) in
    let tagged = at src total >>= λ tag. if tag == user_property then pair else ok (out, total) in
    if ltb total (len src) then tagged else ok (out, total)

-- `decodeUserProperty`. Each round takes five bytes, so `len(src)` rounds are enough.
unfoldable pub decode_user_property : Slice → Outcome (List (List ℕ) × ℕ)
unfolding decode_user_property_loop
decode_user_property src = decode_user_property_loop (suc (len src)) src 0 []

-- One key or value of `writeUserPropertyByBuf`: an empty one is two zeros.
abbrev pub write_part : List ℕ → Outcome (List ℕ)
write_part b = if length b == 0 then ok (0 ∷ 0 ∷ []) else write_to_buf_lp_bytes b

-- `writeUserPropertyByBuf`. The list is `userProperty[i:]`; a key with no value gets an empty one.
pub write_user_property_by_buf : List (List ℕ) → Outcome (List ℕ)
write_user_property_by_buf [] = ok []
write_user_property_by_buf (key ∷ []) = do
  k ← write_part key
  ok (user_property ∷ k ++ (0 ∷ 0 ∷ []))
write_user_property_by_buf (key ∷ val ∷ rest) = do
  k ← write_part key
  v ← write_part val
  r ← write_user_property_by_buf rest
  ok (user_property ∷ (k ++ (v ++ r)))

-- `buildUserPropertyLen`.
pub build_user_property_len : List (List ℕ) → ℕ
build_user_property_len [] = 0
build_user_property_len (key ∷ []) = 5 + length key
build_user_property_len (key ∷ val ∷ rest) =
    5 + length key + length val + build_user_property_len rest
