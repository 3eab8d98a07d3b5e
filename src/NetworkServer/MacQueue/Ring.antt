-- ===== src/NetworkServer/MacQueue/Ring.antt =====
-- The part of the ring that holds commands, as a list: `network_server/sNS.c` walks it by an index.
use lo_ra_wan_backend.Base.{ℕ, zero, suc, ◌+◌, ◌-◌, ◌%◌, ◌≤◌, ◌<◌, ◌≡◌, refl, ap, ap₂}
use lo_ra_wan_backend.Base.{List, [], ◌∷◌, ◌++◌, arith, length, set}
use lo_ra_wan_backend.Base.{get_or-set_self, get_or-set_ne, set_beyond, ◌≢◌, ◌∙◌}
use lo_ra_wan_backend.NetworkServer.MacQueue.{Slot, slot_at, next, blank, mac_cmd_queue_size}

-- The `n` slots from index `i` on, round the ring.
abbrev pub window : ℕ → ℕ → List Slot → List Slot
window zero i s = []
window (suc n) i s = slot_at s i ∷ window n (next i) s

-- The steps from index `i` to index `j`.
abbrev pub ahead : ℕ → ℕ → ℕ
ahead i j = (j + mac_cmd_queue_size - i) % mac_cmd_queue_size

pub next-lt : (i : ℕ) → i < 6 → next i < 6
next-lt i h = ground arith

pub ahead-next : (i j n : ℕ) → i < 6 → j < 6 → ahead i j ≡ suc n → ahead (next i) j ≡ n
ahead-next i j n hi hj e = ground arith

pub ahead_self : (i j : ℕ) → i < 6 → j < 6 → ahead i j ≡ 0 → i ≡ j
ahead_self i j hi hj e = ground arith

pub length-window : (n i : ℕ) (s : List Slot) → length (window n i s) ≡ n
length-window zero i s = refl
length-window (suc n) i s = ap suc (length-window n (next i) s)

ahead_around : (i : ℕ) → i < 6 → ahead (next i) i ≡ 5
ahead_around i h = ground arith

ahead_ne : (i j d : ℕ) → i < 6 → ahead i j ≡ suc d → j ≢ i
ahead_ne i j d hi e = ground arith

-- A write at index `j` is a write into the window, where it lies in it.
window-set_at :
    (n i j d : ℕ) (s : List Slot) (x : Slot)
    → i < 6
    → j < 6
    → n ≤ 6
    → length s ≡ 6
    → ahead i j ≡ d
    → window n i (set s j x) ≡ set (window n i s) d x
window-set_at zero i j d s x hi hj hn hs e = refl
window-set_at (suc n) i j zero s x hi hj hn hs e =
    let same : i ≡ j = ahead_self i j hi hj e in
    ap₂ ◌∷◌ (rw (← same) (get_or-set_self s i x blank (omega arith))) (
      window-set_at n (next i) j 5 s x (next-lt i hi) hj (omega arith) hs
        (rw (← same) (ahead_around i hi))
      ∙ set_beyond (window n (next i) s) 5 x (omega (arith, length-window n (next i) s)))
window-set_at (suc n) i j (suc d) s x hi hj hn hs e =
    ap₂ ◌∷◌ (get_or-set_ne s j i x blank (ahead_ne i j d hi e)) (
      window-set_at n (next i) j d s x (next-lt i hi) hj (omega arith) hs
        (ahead-next i j d hi hj e))

pub window-set :
    (n i j : ℕ) (s : List Slot) (x : Slot)
    → i < 6
    → j < 6
    → n ≤ 6
    → length s ≡ 6
    → window n i (set s j x) ≡ set (window n i s) (ahead i j) x
window-set n i j s x hi hj hn hs = window-set_at n i j (ahead i j) s x hi hj hn hs refl

-- The slot behind a window.
pub window_snoc :
    (n i j : ℕ) (s : List Slot)
    → i < 6
    → j < 6
    → ahead i j ≡ n
    → window (suc n) i s ≡ window n i s ++ slot_at s j ∷ []
window_snoc zero i j s hi hj e = ap (λ t. slot_at s t ∷ []) (ahead_self i j hi hj e)
window_snoc (suc n) i j s hi hj e =
    ap (λ t. slot_at s i ∷ t)
      (window_snoc n (next i) j s (next-lt i hi) hj (ahead-next i j n hi hj e))

-- A write outside the window leaves it alone.
pub window-set_outside :
    (n i j : ℕ) (s : List Slot) (x : Slot)
    → i < 6
    → j < 6
    → n ≤ 6
    → length s ≡ 6
    → n ≤ ahead i j
    → window n i (set s j x) ≡ window n i s
window-set_outside n i j s x hi hj hn hs far =
    window-set n i j s x hi hj hn hs
    ∙ set_beyond (window n i s) (ahead i j) x (omega (arith, length-window n i s))

-- A write at the slot just passed leaves the rest of a walk alone.
pub window-set_behind :
    (n my : ℕ) (s : List Slot) (x : Slot)
    → my < 6
    → n ≤ 5
    → length s ≡ 6
    → window n (next my) (set s my x) ≡ window n (next my) s
window-set_behind n my s x hm hn hs =
    window-set_outside n (next my) my s x (next-lt my hm) hm (omega arith) hs
      (omega (arith, ahead_around my hm))
