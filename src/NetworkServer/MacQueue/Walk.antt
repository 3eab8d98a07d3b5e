-- ===== src/NetworkServer/MacQueue/Walk.antt =====
-- What a walk over the ring changes: the slots that it passes, and no other.
use lo_ra_wan_backend.Base.{ℕ, suc, ◌+◌, ◌≤◌, ◌<◌, ◌≡◌, refl, ap, ap₂, ◌∙◌}
use lo_ra_wan_backend.Base.{List, ◌∷◌, arith, length, get_or, set, length-set, get_or-set_self}
use lo_ra_wan_backend.NetworkServer.MacQueue.{Slot, slot_at, next, blank}
use lo_ra_wan_backend.NetworkServer.MacQueue.Ring.{window, ahead, window-set_outside}

-- A walk of `n` slots from index `my` took the array `s` to `t`, and its part of the ring to `w`.
pub record Walked (n my : ℕ) (s t w : List Slot) : Type 0 where
  pub size : length t ≡ length s
  pub inside : window n my t ≡ w
  pub outside :
      (m j : ℕ) → j < 6 → n ≤ ahead my j → ahead my j + m ≤ 6 → window m j t ≡ window m j s

pub Walked-stop : (n my : ℕ) (s : List Slot) → Walked n my s s (window n my s)
Walked-stop n my s = record { size = refl; inside = refl; outside = λ m j hj far fits. refl }

ahead_back : (my j m : ℕ) → my < 6 → j < 6 → 1 ≤ ahead my j → ahead my j + m ≤ 6 → m ≤ ahead j my
ahead_back my j m hm hj far fits = ground arith

ahead_over : (my : ℕ) → my < 6 → ahead (next my) my ≡ 5
ahead_over my h = ground arith

ahead_shift :
    (my j n m : ℕ)
    → my < 6
    → j < 6
    → suc n ≤ ahead my j
    → ahead my j + m ≤ 6
    → (n ≤ ahead (next my) j) × (ahead (next my) j + m ≤ 6)
ahead_shift my j n m hm hj far fits = ground arith

-- The slot at `my` is kept by the walk behind it.
kept :
    (n my : ℕ) (s t w : List Slot)
    → my < 6
    → suc n ≤ 6
    → Walked n (next my) s t w
    → slot_at t my ≡ slot_at s my
kept n my s t w hm hn rest =
    let far : ahead (next my) my ≡ 5 = ahead_over my hm in
    ap (λ l. get_or l 0 blank) (rest.outside 1 my hm (omega arith) (omega arith))

pub Walked-skip :
    (n my : ℕ) (s t w : List Slot)
    → my < 6
    → suc n ≤ 6
    → Walked n (next my) s t w
    → Walked (suc n) my s t (slot_at s my ∷ w)
Walked-skip n my s t w hm hn rest = record {
  size = rest.size;
  inside = ap₂ ◌∷◌ (kept n my s t w hm hn rest) rest.inside;
  outside = λ m j hj far fits.
      let (far', fits') = ahead_shift my j n m hm hj far fits in rest.outside m j hj far' fits';
}

pub Walked-write :
    (n my : ℕ) (s t w : List Slot) (y : Slot)
    → my < 6
    → suc n ≤ 6
    → length s ≡ 6
    → Walked n (next my) (set s my y) t w
    → Walked (suc n) my s t (y ∷ w)
Walked-write n my s t w y hm hn hs rest = record {
  size = rest.size ∙ length-set s my y;
  inside =
      ap₂ ◌∷◌ (kept n my (set s my y) t w hm hn rest ∙ get_or-set_self s my y blank (omega arith))
        rest.inside;
  outside = λ m j hj far fits.
      let (far', fits') = ahead_shift my j n m hm hj far fits in
      rest.outside m j hj far' fits'
      ∙ window-set_outside m j my s y hj hm (omega arith) hs
          (ahead_back my j m hm hj (omega arith) fits);
}
