-- ===== src/Base/Buffer.antt =====
-- A C array that is written in place.
use lo_ra_wan_backend.Base.{
  ℕ, zero, suc, ◌+◌, ◌≤◌, ◌≡◌, refl, ap, arith, leb, if◌then◌else◌, Option, none, some,
}
use lo_ra_wan_backend.Base.{List, [], ◌∷◌, ◌++◌, length, take}

-- The bytes `w` over those from `i` on.
abbrev pub patch : List ℕ → ℕ → List ℕ → List ℕ
patch [] i w = []
patch (x ∷ b) zero [] = x ∷ b
patch (x ∷ b) zero (y ∷ w) = y ∷ patch b zero w
patch (x ∷ b) (suc i) w = x ∷ patch b i w

-- `none` is a write behind the end.
abbrev pub write : List ℕ → ℕ → List ℕ → Option (List ℕ)
write b i w = if leb (i + length w) (length b) then some (patch b i w) else none

pub length-patch : (b : List ℕ) (i : ℕ) (w : List ℕ) → length (patch b i w) ≡ length b
length-patch [] i w = refl
length-patch (x ∷ b) zero [] = refl
length-patch (x ∷ b) zero (y ∷ w) = ap suc (length-patch b zero w)
length-patch (x ∷ b) (suc i) w = ap suc (length-patch b i w)

pub take-patch :
    (b : List ℕ) (i : ℕ) (w : List ℕ) (m : ℕ)
    → m ≡ i + length w
    → m ≤ length b
    → take m (patch b i w) ≡ take i b ++ w
take-patch [] zero [] zero e h = refl
take-patch [] i w (suc m) e h = absurd (omega arith)
take-patch [] (suc i) w zero e h = absurd (omega arith)
take-patch [] zero (y ∷ w) zero e h = absurd (omega arith)
take-patch (x ∷ b) zero [] zero e h = refl
take-patch (x ∷ b) zero [] (suc m) e h = absurd (omega arith)
take-patch (x ∷ b) zero (y ∷ w) zero e h = absurd (omega arith)
take-patch (x ∷ b) zero (y ∷ w) (suc m) e h =
    ap (λ t. y ∷ t) (take-patch b zero w m (omega arith) (omega arith))
take-patch (x ∷ b) (suc i) w zero e h = absurd (omega arith)
take-patch (x ∷ b) (suc i) w (suc m) e h =
    ap (λ t. x ∷ t) (take-patch b i w m (omega arith) (omega arith))

pub write_within :
    (b : List ℕ) (i : ℕ) (w : List ℕ) → i + length w ≤ length b → write b i w ≡ some (patch b i w)
write_within b i w h = ground arith
