-- ===== src/Base/Dict.antt =====
-- Python's `dict`, which keeps the order of insertion: a write to a key that is there stays in its
-- place. The key's equality is an instance.
use Prim.Native.Nat.{ℕ}
use mathlib.Core.Path.{◌≡◌, refl}
use mathlib.Core.Logic.{◌≢◌, ◌↔◌}
use mathlib.Core.Bool.{Bool, true, false, ◌&&◌}
use mathlib.Core.Option.{Option, none, some}
use mathlib.Core.List.{List, [], ◌∷◌}
use native.Mathlib.Omega.{arith}
use hass_comelit_intercom_lo.Base.Tests.{if◌then◌else◌, ==_iff}
use hass_comelit_intercom_lo.Base.Tests.{◌==◌ as nat_eq}

pub record Eq {ℓ} (K : Type ℓ) : Type ℓ where
  pub beq : K → K → Bool
  pub beq_iff : (a b : K) → (beq a b ≡ true) ↔ (a ≡ b)

instance abbrev pub nat_keys : Eq ℕ
nat_keys = record { beq = nat_eq; beq_iff = ==_iff }

-- Texts, as lists of code points.
abbrev pub same : List ℕ → List ℕ → Bool
same [] [] = true
same (a ∷ s) (b ∷ t) = nat_eq a b && same s t
same _ _ = false

pub same_iff : (s t : List ℕ) → (same s t ≡ true) ↔ (s ≡ t)
same_iff [] [] = ground arith
same_iff [] (b ∷ t) = ground arith
same_iff (a ∷ s) [] = ground arith
same_iff (a ∷ s) (b ∷ t) = ground (arith, same_iff s t)

instance abbrev pub str_keys : Eq (List ℕ)
str_keys = record { beq = same; beq_iff = same_iff }

abbrev pub Dict {ℓ} : Type ℓ → Type ℓ → Type ℓ
Dict K V = List (K × V)

module _ {ℓ} {K V : Type ℓ} ⦃e : Eq K⦄ where
  unfoldable pub get : K → Dict K V → Option V
  get k [] = none
  get k ((j, v) ∷ d) = if e.beq j k then some v else get k d

  unfoldable pub put : K → V → Dict K V → Dict K V
  put k v [] = (k, v) ∷ []
  put k v ((j, w) ∷ d) = if e.beq j k then (j, v) ∷ d else (j, w) ∷ put k v d

  unfoldable pub pop : K → Dict K V → Dict K V
  pop k [] = []
  pop k ((j, w) ∷ d) = if e.beq j k then d else (j, w) ∷ pop k d

  pub get-put_self : (k : K) (v : V) (d : Dict K V) → get k (put k v d) ≡ some v
  unfolding get put
  get-put_self k v [] = ground (arith, e.beq_iff k k)
  get-put_self k v ((j, w) ∷ d) = ground (arith, get-put_self k v d)

  -- No key stands twice, as in every dict of Python.
  abbrev pub IsDict : Dict K V → Type ℓ
  IsDict [] = Unit
  IsDict ((j, v) ∷ d) = (get j d ≡ none) × IsDict d

  get-pop-none : (j k : K) (d : Dict K V) → get j d ≡ none → get j (pop k d) ≡ none
  unfolding get pop
  get-pop-none j k [] h = refl
  get-pop-none j k ((i, v) ∷ d) h = ground (arith, get-pop-none j k d)

  pub pop-IsDict : (k : K) (d : Dict K V) → IsDict d → IsDict (pop k d)
  unfolding pop
  pop-IsDict k [] h = h
  pop-IsDict k ((j, v) ∷ d) h = go (e.beq j k) refl (pop-IsDict k d h.1)
    where
      go : (b : Bool) → e.beq j k ≡ b → IsDict (pop k d) → IsDict (pop k ((j, v) ∷ d))
      go true p rest = rw (pop, p) h.1
      go false p rest = rw (pop, p) (get-pop-none j k d h.0, rest)

  pub get-pop_self : (k : K) (d : Dict K V) → IsDict d → get k (pop k d) ≡ none
  unfolding get pop
  get-pop_self k [] h = refl
  get-pop_self k ((j, v) ∷ d) h = ground (arith, get-pop_self k d h.1, h.0, e.beq_iff j k)

  pub get-pop_other : (j k : K) (d : Dict K V) → j ≢ k → get j (pop k d) ≡ get j d
  unfolding get pop
  get-pop_other j k [] ne = refl
  get-pop_other j k ((i, v) ∷ d) ne =
      ground (arith, get-pop_other j k d ne, e.beq_iff i j, e.beq_iff i k)
