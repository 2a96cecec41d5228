-- ===== src/Rtsp/Clients.antt =====
-- rtsp_server.py: `_TcpClient`, and one interleaved write to each registered client.
use hass_comelit_intercom_lo.Base.{
  ℕ, ◌+◌, Bool, true, false, Option, none, some, List, [], ◌∷◌, ◌++◌, Result, ok, err, ◌>>=◌,
  if◌then◌else◌, length,
}
use hass_comelit_intercom_lo.Base.Bytes.{Bytes, pack_byte, pack_be16}

pub record TcpClient : Type 0 where
  -- which connection's writer it is
  pub writer : ℕ
  pub video_ch : Option ℕ
  pub audio_ch : Option ℕ
  -- `writer.is_closing()`
  pub is_closing : Bool
  -- a `write` raises
  pub is_broken : Bool
  pub written : List Bytes

-- struct.pack("!BBH", 0x24, channel, len(packet)) + packet
unfoldable pub interleaved : ℕ → Bytes → Result Bytes
interleaved channel packet = do
  ch ← pack_byte channel
  len ← pack_be16 (length packet)
  ok (0x24 ∷ ch ++ len ++ packet)

-- `writer.write`; `none` is an exception, of `struct` or of the writer.
unfoldable pub write : ℕ → Bytes → TcpClient → Option TcpClient
write channel packet c = elim (interleaved channel packet) [
  | ok frame ↦ if c.is_broken then none else some (record c { written = c.written ++ frame ∷ [] })
  | err e ↦ none
]

abbrev pub channel_of : Bool → TcpClient → Option ℕ
channel_of true c = c.video_ch
channel_of false c = c.audio_ch

-- One client of a broadcast, `offset` past its channel; `none` is a dead client. A client with no
-- channel for this medium is skipped.
unfoldable pub deliver_on : Option ℕ → ℕ → Bytes → TcpClient → Option TcpClient
deliver_on none offset packet c = some c
deliver_on (some ch) offset packet c = if c.is_closing then none else write (ch + offset) packet c

unfoldable pub deliver : Bool → ℕ → Bytes → TcpClient → Option TcpClient
unfolding deliver_on
deliver is_video offset packet c = deliver_on (channel_of is_video c) offset packet c

unfoldable pub keep : Option TcpClient → List TcpClient → List TcpClient
keep none cs = cs
keep (some c) cs = c ∷ cs

-- The clients that a broadcast leaves registered.
unfoldable pub deliver_all : Bool → ℕ → Bytes → List TcpClient → List TcpClient
unfolding keep
deliver_all is_video offset packet [] = []
deliver_all is_video offset packet (c ∷ cs) =
    keep (deliver is_video offset packet c) (deliver_all is_video offset packet cs)

unfoldable pub lose : Option TcpClient → ℕ → List ℕ → List ℕ
lose none writer ws = writer ∷ ws
lose (some c) writer ws = ws

-- The writers that a broadcast closes.
unfoldable pub dead_writers : Bool → ℕ → Bytes → List TcpClient → List ℕ
unfolding lose
dead_writers is_video offset packet [] = []
dead_writers is_video offset packet (c ∷ cs) =
    lose (deliver is_video offset packet c) c.writer (dead_writers is_video offset packet cs)
