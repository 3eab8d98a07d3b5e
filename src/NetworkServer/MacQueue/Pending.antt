-- ===== src/NetworkServer/MacQueue/Pending.antt =====
-- The abstract view of the queue: the commands that wait, oldest first.
use lo_ra_wan_backend.Base.{ℕ, zero, suc, ◌+◌, ◌≡◌, refl, ◌<◌, arith, ltb, ◌==◌}
use lo_ra_wan_backend.Base.{Bool, true, false, ◌||◌, if◌then◌else◌}
use lo_ra_wan_backend.Base.{List, [], ◌∷◌, ◌++◌, length, get_or, take}
use lo_ra_wan_backend.NetworkServer.MacQueue.{Slot, MacQueue, opcode}
use lo_ra_wan_backend.NetworkServer.MacQueue.Ring.{window, ahead}

pub record Command : Type 0 where
  pub needs_answer : Bool
  pub bytes : List ℕ

abbrev pub command : Slot → Command
command x = record { needs_answer = x.needs_answer; bytes = take x.len x.buf }

-- The identifier, the command's first byte.
abbrev pub cid : Command → ℕ
cid c = get_or c.bytes 0 0

-- The commands of the slots that hold one.
abbrev pub live : List Slot → List Command
live [] = []
live (x ∷ xs) = let rest = live xs in if x.len == 0 then rest else command x ∷ rest

abbrev pub span : MacQueue → ℕ
span q = ahead q.out_idx q.in_idx

-- The slots from `out_idx` up to `in_idx`.
abbrev pub held : MacQueue → List Slot
held q = window (span q) q.out_idx q.slots

abbrev pub pending : MacQueue → List Command
pending q = live (held q)

abbrev pub has_command : ℕ → List Command → Bool
has_command c [] = false
has_command c (x ∷ xs) = cid x == c || has_command c xs

-- No two commands have one identifier.
abbrev pub IsDistinct : List Command → Type 0
IsDistinct [] = Unit
IsDistinct (x ∷ xs) = (has_command (cid x) xs ≡ false) × IsDistinct xs

abbrev pub is_empty : List Command → Bool
is_empty [] = true
is_empty (x ∷ xs) = false

abbrev pub remove_first : ℕ → List Command → List Command
remove_first c [] = []
remove_first c (x ∷ xs) = if cid x == c then xs else x ∷ remove_first c xs

-- What is sent when `used` bytes of the 15 are taken: the bytes, the commands that stay in the
-- queue, and whether a command that was sent wants an answer.
pub record Sending : Type 0 where
  pub bytes : List ℕ
  pub kept : List Command
  pub asked : Bool

abbrev pub sending : ℕ → List Command → Sending
sending used [] = record { bytes = []; kept = []; asked = false }
sending used (c ∷ cs) =
    let rest = sending (used + length c.bytes) cs in
    if ltb 15 (used + length c.bytes)
    then record { bytes = []; kept = c ∷ cs; asked = false }
    else record {
      bytes = c.bytes ++ rest.bytes;
      kept = if c.needs_answer then c ∷ rest.kept else rest.kept;
      asked = c.needs_answer || rest.asked;
    }

pub live-append : (xs ys : List Slot) → live (xs ++ ys) ≡ live xs ++ live ys
live-append [] ys = refl
live-append (x ∷ xs) ys = ground (arith, live-append xs ys)

-- The identifier of a slot's command is its `buf[0]`.
pub cid-command : (x : Slot) → 0 < x.len → cid (command x) ≡ opcode x
cid-command x h = head x.len x.buf h
  where
    head : (n : ℕ) (l : List ℕ) → 0 < n → get_or (take n l) 0 0 ≡ get_or l 0 0
    head zero l h = absurd (omega arith)
    head (suc n) [] h = refl
    head (suc n) (b ∷ l) h = refl
