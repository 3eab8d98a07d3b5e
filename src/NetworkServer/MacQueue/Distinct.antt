-- ===== src/NetworkServer/MacQueue/Distinct.antt =====
-- The commands that wait keep distinct identifiers when one is cleared or some are sent.
use lo_ra_wan_backend.Base.{ℕ, ◌+◌, ◌≡◌, refl, arith, ltb, ◌==◌}
use lo_ra_wan_backend.Base.{false, Bool-cases, if_either, inl, inr}
use lo_ra_wan_backend.Base.{List, [], ◌∷◌, length}
use lo_ra_wan_backend.NetworkServer.MacQueue.Pending.{
  Command, cid, has_command, remove_first, sending, IsDistinct,
}

has_command-remove_first :
    (c d : ℕ) (l : List Command)
    → has_command c l ≡ false
    → has_command c (remove_first d l) ≡ false
has_command-remove_first c d [] h = refl
has_command-remove_first c d (x ∷ l) h = ground (arith, has_command-remove_first c d l)

pub remove_first-IsDistinct :
    (c : ℕ) (l : List Command) → IsDistinct l → IsDistinct (remove_first c l)
remove_first-IsDistinct c [] h = tt
remove_first-IsDistinct c (x ∷ l) h =
    if_either IsDistinct (cid x == c) h.1
      (has_command-remove_first (cid x) c l h.0, remove_first-IsDistinct c l h.1)

has_command-kept :
    (c used : ℕ) (l : List Command)
    → has_command c l ≡ false
    → has_command c (sending used l).kept ≡ false
has_command-kept c used [] h = refl
has_command-kept c used (x ∷ l) h = ground (arith, has_command-kept c (used + length x.bytes) l)

pub kept-IsDistinct :
    (used : ℕ) (l : List Command) → IsDistinct l → IsDistinct (sending used l).kept
kept-IsDistinct used [] h = tt
kept-IsDistinct used (x ∷ l) h = elim (Bool-cases (ltb 15 (used + length x.bytes))) [
  | inl f ↦ rw f h
  | inr f ↦ rw f (
      if_either IsDistinct x.needs_answer
        (
          has_command-kept (cid x) (used + length x.bytes) l h.0,
          kept-IsDistinct (used + length x.bytes) l h.1,
        )
        (kept-IsDistinct (used + length x.bytes) l h.1))
]
