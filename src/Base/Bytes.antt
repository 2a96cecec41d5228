-- ===== src/Base/Bytes.antt =====
-- Python's `bytes`, `struct.pack`, `struct.unpack_from`, `str.encode("ascii")` and `str(int)`.
use Prim.Native.Nat.{ℕ, zero, suc, ◌+◌, ◌*◌, ◌/◌, ◌%◌, ◌<◌}
use mathlib.Core.Path.{◌≡◌, refl}
use mathlib.Core.Bool.{Bool, true, ◌&&◌}
use mathlib.Core.List.{List, [], ◌∷◌}
use native.Mathlib.Omega.{arith}
use hass_comelit_intercom_lo.Base.Tests.{ltb, if◌then◌else◌}
use hass_comelit_intercom_lo.Base.Lists.{All, drop}
use hass_comelit_intercom_lo.Base.Results.{
  Result, ok, err, struct_error, value_error, unicode_error,
}

abbrev pub Bytes : Type 0
Bytes = List ℕ

-- A text, as its code points.
abbrev pub Str : Type 0
Str = List ℕ

abbrev pub IsByte : ℕ → Type 0
IsByte b = b < 256

abbrev pub IsAscii : Str → Type 0
IsAscii = All (λ c. c < 128)

-- struct.pack("<H", n), ("<I", n), (">H", n) and (">I", n): out of range is `struct.error`.
unfoldable pub pack_le16 : ℕ → Result Bytes
pack_le16 n = if ltb n 65536 then ok (n % 256 ∷ n / 256 ∷ []) else err struct_error

unfoldable pub pack_le32 : ℕ → Result Bytes
pack_le32 n =
    if ltb n 4294967296
    then ok (n % 256 ∷ n / 256 % 256 ∷ n / 65536 % 256 ∷ n / 16777216 ∷ [])
    else err struct_error

unfoldable pub pack_be16 : ℕ → Result Bytes
pack_be16 n = if ltb n 65536 then ok (n / 256 ∷ n % 256 ∷ []) else err struct_error

unfoldable pub pack_be32 : ℕ → Result Bytes
pack_be32 n =
    if ltb n 4294967296
    then ok (n / 16777216 ∷ n / 65536 % 256 ∷ n / 256 % 256 ∷ n % 256 ∷ [])
    else err struct_error

-- struct.pack("B", n), and bytes([n]): out of range is `struct.error`, and `ValueError`.
unfoldable pub pack_byte : ℕ → Result Bytes
pack_byte n = if ltb n 256 then ok (n ∷ []) else err struct_error

unfoldable pub byte_of : ℕ → Result Bytes
byte_of n = if ltb n 256 then ok (n ∷ []) else err value_error

-- A two- or four-byte read at the front: too few bytes are `struct.error`.
abbrev le16_at : Bytes → Result ℕ
le16_at (a ∷ b ∷ r) = ok (a + 256 * b)
le16_at _ = err struct_error

abbrev le32_at : Bytes → Result ℕ
le32_at (a ∷ b ∷ c ∷ d ∷ r) = ok (a + 256 * b + 65536 * c + 16777216 * d)
le32_at _ = err struct_error

abbrev be16_at : Bytes → Result ℕ
be16_at (a ∷ b ∷ r) = ok (256 * a + b)
be16_at _ = err struct_error

abbrev be32_at : Bytes → Result ℕ
be32_at (a ∷ b ∷ c ∷ d ∷ r) = ok (16777216 * a + 65536 * b + 256 * c + d)
be32_at _ = err struct_error

-- struct.unpack_from(fmt, data, offset)[0]
unfoldable pub unpack_le16 : Bytes → ℕ → Result ℕ
unpack_le16 body offset = le16_at (drop offset body)

unfoldable pub unpack_le32 : Bytes → ℕ → Result ℕ
unpack_le32 body offset = le32_at (drop offset body)

unfoldable pub unpack_be16 : Bytes → ℕ → Result ℕ
unpack_be16 body offset = be16_at (drop offset body)

unfoldable pub unpack_be32 : Bytes → ℕ → Result ℕ
unpack_be32 body offset = be32_at (drop offset body)

-- s.encode("ascii")
abbrev all_ascii : Str → Bool
all_ascii [] = true
all_ascii (c ∷ s) = ltb c 128 && all_ascii s

unfoldable pub encode_ascii : Str → Result Bytes
encode_ascii s = if all_ascii s then ok s else err unicode_error

all_ascii_of_IsAscii : (s : Str) → IsAscii s → all_ascii s ≡ true
all_ascii_of_IsAscii [] h = refl
all_ascii_of_IsAscii (c ∷ s) h = ground (arith, all_ascii_of_IsAscii s h.1)

pub encode_ascii_of_IsAscii : (s : Str) → IsAscii s → encode_ascii s ≡ ok s
unfolding encode_ascii
encode_ascii_of_IsAscii s h = rw (all_ascii_of_IsAscii s h)

-- str(n): the last digit, below the digits of n / 10. Fuel n is enough, for n / 10 < n.
unfoldable pub decimal_fuel : ℕ → ℕ → Str → Str
decimal_fuel zero n acc = (48 + n % 10) ∷ acc
decimal_fuel (suc f) n acc =
    let rest = decimal_fuel f (n / 10) ((48 + n % 10) ∷ acc) in
    if ltb n 10 then (48 + n) ∷ acc else rest

unfoldable pub decimal : ℕ → Str
unfolding decimal_fuel
decimal n = decimal_fuel n n []
