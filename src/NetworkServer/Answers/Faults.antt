-- ===== src/NetworkServer/Answers/Faults.antt =====
-- When the answers touch memory that they must not touch.
use lo_ra_wan_backend.Base.{
  ℕ, suc, ◌≡◌, refl, ap, ◌∙◌, arith, Bool, true, false, not, ◌&&◌, ◌||◌, if◌then◌else◌, ◌==◌, ◌>>=◌,
}
use lo_ra_wan_backend.Base.{List, [], ◌∷◌, Option, none, some}
use lo_ra_wan_backend.NetworkServer.Collect.{Requester}
use lo_ra_wan_backend.NetworkServer.Answers.{
  Answer, accepted, deferred, other, sql_failed, to_as_failed, is_accepted, Surroundings, Post,
  State, is_start, start_answer, react, perform, keep, after_post, answer_from, answer_requesters,
}

-- A roaming start request that waits, of a mote that is known and has a lifetime, while the own
-- gateways heard the uplink best, or this requester did and its answer is handed over.
abbrev pub best_or_own : Option ℕ → Post → ℕ → Bool
best_or_own none p i = true
best_or_own (some b) p i = (i == b) && (p.zero_returned && p.freed)

abbrev pub is_faulty : Surroundings → Option ℕ → Post → ℕ → Requester → Bool
is_faulty w best_r p i r =
    (r.needs_answer && not w.join)
    && ((w.known && w.lifetime) && (is_start r.message_type && best_or_own best_r p i))

unfoldable pub any_faulty :
    Surroundings → Option ℕ → (ℕ → Post) → ℕ → List (Option Requester) → Bool
any_faulty w best_r posts i [] = false
any_faulty w best_r posts i (none ∷ l) = any_faulty w best_r posts (suc i) l
any_faulty w best_r posts i (some r ∷ l) =
    is_faulty w best_r (posts i) i r || any_faulty w best_r posts (suc i) l

abbrev pub is_none : Option State → Bool
is_none none = true
is_none (some st) = false

guarded-is_none :
    (a f : Bool) (st st' : State)
    → is_none (if not a then some st else if f then none else some st') ≡ a && f
guarded-is_none true true st st' = refl
guarded-is_none true false st st' = refl
guarded-is_none false f st st' = refl

after_post-is_none :
    (w : Surroundings) (p : Post) (i : ℕ) (a : Answer) (r : Requester) (st : State)
    → is_none (after_post w p i a r st) ≡ (p.zero_returned && is_accepted a) && p.freed
unfolding after_post
after_post-is_none w p i a r st = guarded-is_none (p.zero_returned && is_accepted a) p.freed _ _

perform-is_none :
    (w : Surroundings) (best_r : Option ℕ) (p : Post) (i frm_len : ℕ) (r : Requester) (st : State)
    → is_none (perform w p i r (react w best_r frm_len i r) st) ≡ is_faulty w best_r p i r
unfolding react start_answer
perform-is_none w best_r p i frm_len r st = ground (
  arith,
  after_post-is_none w p i accepted r st,
  after_post-is_none w p i deferred r st,
  after_post-is_none w p i other r st,
  after_post-is_none w p i sql_failed r st,
  after_post-is_none w p i to_as_failed r (record st { ul_frm_payload_len = 0 }),
)

bind-is_none :
    (o : Option State) (f : State → Option State) (b : Bool)
    → ((st : State) → is_none (f st) ≡ b)
    → is_none (o >>= f) ≡ is_none o || b
bind-is_none none f b h = refl
bind-is_none (some st) f b h = h st

answer_from-is_none :
    (w : Surroundings) (best_r : Option ℕ) (posts : ℕ → Post) (i : ℕ) (l : List (Option Requester))
    (st : State)
    → is_none (answer_from w best_r posts i l st) ≡ any_faulty w best_r posts i l
unfolding answer_from any_faulty
answer_from-is_none w best_r posts i [] st = refl
answer_from-is_none w best_r posts i (none ∷ l) st =
    answer_from-is_none w best_r posts (suc i) l (keep none st)
answer_from-is_none w best_r posts i (some r ∷ l) st =
    bind-is_none (perform w (posts i) i r (react w best_r st.ul_frm_payload_len i r) st)
      (λ st'. answer_from w best_r posts (suc i) l st') (any_faulty w best_r posts (suc i) l)
      (λ st'. answer_from-is_none w best_r posts (suc i) l st')
    ∙ ap (λ b. b || any_faulty w best_r posts (suc i) l)
        (perform-is_none w best_r (posts i) i st.ul_frm_payload_len r st)

-- The loop over the requesters reads through NULL or touches a requester that was freed exactly
-- when there is a roaming start request that waits for its answer, of a known mote with a lifetime
-- whose frame is no join or rejoin request, and either an own gateway heard the uplink best, or that
-- requester did and its answer is handed over.
pub answer_requesters-is_none :
    (w : Surroundings) (best_r : Option ℕ) (posts : ℕ → Post) (requesters : List (Option Requester))
    (st : State)
    → is_none (answer_requesters w best_r posts requesters st)
      ≡ any_faulty w best_r posts 0 requesters
unfolding answer_requesters
answer_requesters-is_none w best_r posts requesters st =
    answer_from-is_none w best_r posts 0 requesters (record st { requesters = []; answers = [] })
