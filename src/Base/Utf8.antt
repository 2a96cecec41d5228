-- ===== src/Base/Utf8.antt =====
-- Python's `str.encode()`, and `bytes.decode("utf-8", errors="replace")`.
use Prim.Native.Nat.{ℕ, zero, suc, ◌+◌, ◌-◌, ◌*◌, ◌/◌, ◌%◌}
use mathlib.Core.Path.{◌≡◌, refl}
use mathlib.Core.Bool.{◌&&◌}
use mathlib.Core.List.{[], ◌∷◌, ◌++◌}
use native.Mathlib.Omega.{arith}
use hass_comelit_intercom_lo.Base.Tests.{ltb, leb, ◌==◌, if◌then◌else◌}
use hass_comelit_intercom_lo.Base.Bytes.{Bytes, Str, IsAscii}

abbrev pub continuation : ℕ → ℕ
continuation n = 128 + n % 64

encode_char : ℕ → Bytes
encode_char c =
    if ltb c 0x80
    then c ∷ []
    else if ltb c 0x800
    then (0xc0 + c / 64) ∷ continuation c ∷ []
    else if ltb c 0x10000
    then (0xe0 + c / 4096) ∷ continuation (c / 64) ∷ continuation c ∷ []
    else (0xf0 + c / 262144) ∷ continuation (c / 4096) ∷ continuation (c / 64) ∷ continuation c ∷ []

unfoldable pub encode_utf8 : Str → Bytes
unfolding encode_char
encode_utf8 [] = []
encode_utf8 (c ∷ s) = encode_char c ++ encode_utf8 s

-- A character that is read: how many bytes are missing, where the next one lies, and its bits so far.
record Reading : Type 0 where
  missing : ℕ
  low : ℕ
  high : ℕ
  bits : ℕ

abbrev idle : Reading
idle = record { missing = 0; low = 0; high = 0; bits = 0 }

abbrev expecting : ℕ → ℕ → ℕ → ℕ → Str × Reading
expecting missing low high bits =
    ([], record { missing = missing; low = low; high = high; bits = bits })

-- The first byte of a character. The second byte's range leaves out overlong forms, surrogates and
-- what lies above 0x10ffff.
lead : ℕ → Str × Reading
lead b =
    if ltb b 0x80
    then (b ∷ [], idle)
    else if leb 0xc2 b && leb b 0xdf
    then expecting 1 0x80 0xbf (b - 0xc0)
    else if b == 0xe0
    then expecting 2 0xa0 0xbf 0
    else if b == 0xed
    then expecting 2 0x80 0x9f 13
    else if leb 0xe1 b && leb b 0xef
    then expecting 2 0x80 0xbf (b - 0xe0)
    else if b == 0xf0
    then expecting 3 0x90 0xbf 0
    else if leb 0xf1 b && leb b 0xf3
    then expecting 3 0x80 0xbf (b - 0xf0)
    else if b == 0xf4
    then expecting 3 0x80 0x8f 4
    else (0xfffd ∷ [], idle)

-- A byte that does not continue the character replaces it, and is read again as a first byte.
next_byte : ℕ → Reading → ℕ → Str × Reading
unfolding lead
next_byte zero r b = lead b
next_byte (suc n) r b =
    if leb r.low b && leb b r.high
    then (if n == 0
        then ((r.bits * 64 + b % 64) ∷ [], idle)
        else expecting n 0x80 0xbf (r.bits * 64 + b % 64))
    else (0xfffd ∷ (lead b).0, (lead b).1)

decode_from : Reading → Bytes → Str
unfolding next_byte
decode_from r [] = if r.missing == 0 then [] else 0xfffd ∷ []
decode_from r (b ∷ bytes) = let now = next_byte r.missing r b in now.0 ++ decode_from now.1 bytes

unfoldable pub decode_utf8 : Bytes → Str
unfolding decode_from
decode_utf8 bytes = decode_from idle bytes

-- ASCII is its own encoding.
pub encode_utf8_of_IsAscii : (s : Str) → IsAscii s → encode_utf8 s ≡ s
unfolding encode_utf8
encode_utf8_of_IsAscii [] h = refl
encode_utf8_of_IsAscii (c ∷ s) h = ground (arith, encode_utf8_of_IsAscii s h.1)

pub decode_utf8_of_IsAscii : (s : Str) → IsAscii s → decode_utf8 s ≡ s
unfolding decode_utf8
decode_utf8_of_IsAscii [] h = refl
decode_utf8_of_IsAscii (c ∷ s) h = ground (arith, decode_utf8_of_IsAscii s h.1)
