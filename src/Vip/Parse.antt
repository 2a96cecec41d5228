-- ===== src/Vip/Parse.antt =====
-- vip_listener.py: `_derive_event_ack_ts` and `parse_ctpp_message`.
use hass_comelit_intercom_lo.Base.{
  ℕ, zero, suc, ◌+◌, ◌*◌, ◌/◌, ◌%◌, bit_xor, ◌==◌, true, false, ◌&&◌, Option, none, some, List, [],
  ◌∷◌, Result, ok, ◌>>=◌, map, ltb, leb, length, if◌then◌else◌,
}
use hass_comelit_intercom_lo.Base.Bytes.{Bytes, Str, unpack_le16, unpack_le32, unpack_be16}

-- The four bytes of the time stamp, changed one by one.
unfoldable pub derive_event_ack_ts : ℕ → ℕ
derive_event_ack_ts dev_ts =
    let b0 = dev_ts % 256 in
    let b1 = dev_ts / 256 % 256 in
    let b2 = dev_ts / 65536 % 256 in
    let b3 = dev_ts / 16777216 % 256 in
    bit_xor b0 0x80 + 256 * b1 + 65536 * b3 + 16777216 * ((b2 + 1) % 256)

pub record CtppMessage : Type 0 where
  pub prefix : ℕ
  pub timestamp : ℕ
  pub action : ℕ
  pub flags : Option ℕ
  pub addresses : List Str
  pub raw : Bytes

-- data[i:end], where `end` is the next zero byte or the end of the data.
unfoldable pub until_zero : Bytes → Bytes
until_zero [] = []
until_zero (b ∷ bytes) = elim (b == 0) [ true ↦ [] | false ↦ b ∷ until_zero bytes ]

-- .decode("ascii", errors="replace")
unfoldable pub decode_ascii : Bytes → Str
decode_ascii = map (λ b. if ltb b 128 then b else 0xFFFD)

-- The scan for addresses, with `skip` bytes of an address still to be passed over: the one at hand
-- and the zero byte behind it.
unfoldable pub scan_addresses : ℕ → Bytes → List Str
scan_addresses skip [] = []
scan_addresses (suc skip) (b ∷ bytes) = scan_addresses skip bytes
scan_addresses zero (b ∷ []) = []
scan_addresses zero (b ∷ c ∷ bytes) = elim (b == b'S' && c == b'B') [
  | true ↦
      decode_ascii (b ∷ until_zero (c ∷ bytes))
      ∷ scan_addresses (length (until_zero (c ∷ bytes)) + 1) (c ∷ bytes)
  | false ↦ scan_addresses zero (c ∷ bytes)
]

-- `none` for a message that is too short.
unfoldable pub parse_ctpp_message : Bytes → Result (Option CtppMessage)
parse_ctpp_message bytes = if ltb (length bytes) 8 then ok none else do
  prefix ← unpack_le16 bytes 0
  timestamp ← unpack_le32 bytes 2
  action ← unpack_be16 bytes 6
  flags ← if leb 10 (length bytes) then unpack_be16 bytes 8 >>= (λ f. ok (some f)) else ok none
  ok (
      some (record {
        prefix = prefix;
        timestamp = timestamp;
        action = action;
        flags = flags;
        addresses = scan_addresses 0 bytes;
        raw = bytes;
      }))
