-- ===== src/Base/Packing.antt =====
-- Which calls of `struct` return, and what they return.
use hass_comelit_intercom_lo.Base.Lists.{All, drop, length, length-drop}
use hass_comelit_intercom_lo.Base.Results.{Result, Returns, ok, err}
use hass_comelit_intercom_lo.Base.Bytes.{
  Bytes, IsByte, pack_le16, unpack_le16, unpack_le32, unpack_be16,
}
use Prim.Native.Nat.{ℕ, zero, suc, ◌+◌, ◌%◌, ◌/◌, ◌≤◌, ◌<◌}
use mathlib.Core.Path.{◌≡◌, refl}
use mathlib.Core.List.{[], ◌∷◌}
use native.Mathlib.Omega.{arith}

-- Anything at all is returned.
abbrev pub Anything {ℓ} : {A : Type ℓ} → A → Type 0
Anything a = Unit

pub unpack_le16-Returns :
    (body : Bytes) (offset : ℕ)
    → offset + 2 ≤ length body
    → Returns Anything (unpack_le16 body offset)
unfolding unpack_le16
unpack_le16-Returns body offset h = go (drop offset body) (omega (arith, length-drop offset body))
  where
    go : (b : Bytes) → 2 ≤ length b → Returns Anything (unpack_le16 b 0)
    go (x ∷ y ∷ b) h = tt
    go (x ∷ []) h = absurd (omega arith)
    go [] h = absurd (omega arith)

-- Two bytes make a word.
pub unpack_le16_below :
    (body : Bytes) (offset n : ℕ) → All IsByte body → unpack_le16 body offset ≡ ok n → n < 65536
unfolding unpack_le16
unpack_le16_below [] offset n h e = go offset e
  where
    go : (o : ℕ) → unpack_le16 [] o ≡ ok n → n < 65536
    go zero e = ground arith
    go (suc o) e = ground arith
unpack_le16_below (x ∷ []) zero n h e = ground arith
unpack_le16_below (x ∷ y ∷ r) zero n h e = ground arith
unpack_le16_below (x ∷ body) (suc o) n h e = unpack_le16_below body o n (ground arith) e

pub unpack_le32-Returns :
    (body : Bytes) (offset : ℕ)
    → offset + 4 ≤ length body
    → Returns Anything (unpack_le32 body offset)
unfolding unpack_le32
unpack_le32-Returns body offset h = go (drop offset body) (omega (arith, length-drop offset body))
  where
    go : (b : Bytes) → 4 ≤ length b → Returns Anything (unpack_le32 b 0)
    go (w ∷ x ∷ y ∷ z ∷ b) h = tt
    go (w ∷ x ∷ y ∷ []) h = absurd (omega arith)
    go (x ∷ y ∷ []) h = absurd (omega arith)
    go (x ∷ []) h = absurd (omega arith)
    go [] h = absurd (omega arith)

pub unpack_le16_word :
    (body : Bytes) (offset : ℕ)
    → All IsByte body
    → offset + 2 ≤ length body
    → Returns (λ n. n < 65536) (unpack_le16 body offset)
unpack_le16_word body offset bytes long =
    go (unpack_le16 body offset) refl (unpack_le16-Returns body offset long)
  where
    go :
        (r : Result ℕ)
        → unpack_le16 body offset ≡ r
        → Returns Anything r
        → Returns (λ n. n < 65536) r
    go (ok n) e h = unpack_le16_below body offset n bytes e
    go (err x) e h = h

pub pack_le16_of_fits : (n : ℕ) → n < 65536 → pack_le16 n ≡ ok (n % 256 ∷ n / 256 ∷ [])
unfolding pack_le16
pack_le16_of_fits n h = ground arith

pub unpack_be16-Returns :
    (body : Bytes) (offset : ℕ)
    → offset + 2 ≤ length body
    → Returns Anything (unpack_be16 body offset)
unfolding unpack_be16
unpack_be16-Returns body offset h = go (drop offset body) (omega (arith, length-drop offset body))
  where
    go : (b : Bytes) → 2 ≤ length b → Returns Anything (unpack_be16 b 0)
    go (x ∷ y ∷ b) h = tt
    go (x ∷ []) h = absurd (omega arith)
    go [] h = absurd (omega arith)
