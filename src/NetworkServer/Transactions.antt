-- ===== src/NetworkServer/Transactions.antt =====
-- The pending requests of a mote: `next_tid` of network_server/common.c. A callback is a number,
-- and `none` is NULL. The counter `_next_req_tid` stands beside the slots; its first value is the
-- caller's, as it comes from `rand`.
use lo_ra_wan_backend.Base.{
  ℕ, zero, suc, ◌+◌, ◌<◌, ◌≤◌, ◌≡◌, ◌≢◌, refl, sym, ap, ◌∙◌, arith, ltb, u32, ◌⊎◌, inl, inr,
}
use mathlib.Core.Path.{subst}
use native.Mathlib.Decide.{dec_lt}
use lo_ra_wan_backend.Base.{
  true, false, if◌then◌else◌, Option, none, some, List, [], ◌∷◌, Option-cases, get_or, set, length,
}

pub record Transaction : Type 0 where
  pub sent_tid : ℕ
  pub ans_callback : Option ℕ

pub record Transactions : Type 0 where
  pub t : List Transaction
  pub next_req_tid : ℕ

abbrev pub empty : Transaction
empty = record { sent_tid = 0; ans_callback = none }

-- The first slot without a callback; `n` counts the slots passed.
pub free_slot : List Transaction → ℕ → Option ℕ
free_slot [] n = none
free_slot (x ∷ t) n =
    let rest = free_slot t (n + 1) in elim x.ans_callback [ none ↦ some n | some cb ↦ rest ]

-- The loop for the oldest: `on` is the slot with `oldest_tid`, so far.
pub oldest_from : List Transaction → ℕ → ℕ → ℕ → ℕ
oldest_from [] n oldest_tid on = on
oldest_from (x ∷ t) n oldest_tid on =
    let older = oldest_from t (n + 1) x.sent_tid n in
    let rest = oldest_from t (n + 1) oldest_tid on in
    if ltb x.sent_tid oldest_tid then older else rest

pub oldest_slot : List Transaction → ℕ
unfolding oldest_from
oldest_slot [] = 0
oldest_slot (x ∷ t) = oldest_from t 1 x.sent_tid 0

-- The slots and the counter after the call, and the identifier for the request.
pub next_tid : Transactions → ℕ → Transactions × ℕ
unfolding free_slot oldest_slot
next_tid s cb =
    let tid = u32 (s.next_req_tid + 1) in
    let n : ℕ = elim (free_slot s.t 0) [ none ↦ oldest_slot s.t | some n ↦ n ] in
    (
      record {
        t = set s.t n (record { sent_tid = tid; ans_callback = some cb });
        next_req_tid = tid;
      },
      tid,
    )

abbrev pub callback_of : List Transaction → ℕ → Option ℕ
callback_of t k = (get_or t k empty).ans_callback

abbrev pub tid_of : List Transaction → ℕ → ℕ
tid_of t k = (get_or t k empty).sent_tid

abbrev pub AllBusy : List Transaction → Type 0
AllBusy t = (k : ℕ) → k < length t → callback_of t k ≢ none

-- The first slot that is free.
abbrev pub IsFirstFree : List Transaction → ℕ → Type 0
IsFirstFree t n =
    (n < length t) × (callback_of t n ≡ none) × ((j : ℕ) → j < n → callback_of t j ≢ none)

-- No slot is free, and none is older.
abbrev pub IsOldest : List Transaction → ℕ → Type 0
IsOldest t n = (n < length t) × AllBusy t × ((j : ℕ) → j < length t → tid_of t n ≤ tid_of t j)

busy_before :
    (x : Transaction) (t : List Transaction) (m : ℕ)
    → x.ans_callback ≢ none
    → ((j : ℕ) → j < m → callback_of t j ≢ none)
    → (j : ℕ) → j < suc m
    → callback_of (x ∷ t) j ≢ none
busy_before x t m b h zero p = b
busy_before x t m b h (suc j) p = h j (omega arith)

some-none : {c : Option ℕ} {a : ℕ} → c ≡ some a → c ≢ none
some-none e f = cc

free_slot_lem :
    (t : List Transaction) (n : ℕ)
    → ((free_slot t n ≡ none) × AllBusy t)
      ⊎ ((k : ℕ) × (free_slot t n ≡ some (n + k)) × IsFirstFree t k)
unfolding free_slot
free_slot_lem [] n = inl (refl, λ k p. absurd (omega arith))
free_slot_lem (x ∷ t) n = elim (Option-cases x.ans_callback) [
  | inl free ↦
      inr (0, rw free (ap some (omega arith)), (omega arith, free, λ j p. absurd (omega arith)))
  | inr (cb, used) ↦ elim (free_slot_lem t (n + 1)) [
    | inl (r, busy) ↦ inl (rw used r, busy_before x t (length t) (some-none used) busy)
    | inr (k, r, (p, free, busy)) ↦ inr (
      suc k,
      rw used (r ∙ ap some (omega arith)),
      (omega arith, free, busy_before x t k (some-none used) busy),
    )
  ]
]

-- The loop keeps its candidate, or finds an older slot.
abbrev Older : List Transaction → ℕ → ℕ → ℕ → ℕ → Type 0
Older t n oldest_tid on result =
    ((result ≡ on) × ((j : ℕ) → j < length t → oldest_tid ≤ tid_of t j))
    ⊎ ((k : ℕ) × (k < length t)
        × (result ≡ n + k)
        × (tid_of t k < oldest_tid)
        × ((j : ℕ) → j < length t → tid_of t k ≤ tid_of t j))

least :
    (x : Transaction) (t : List Transaction) (m : ℕ)
    → m ≤ x.sent_tid
    → ((j : ℕ) → j < length t → m ≤ tid_of t j)
    → (j : ℕ) → j < suc (length t)
    → m ≤ tid_of (x ∷ t) j
least x t m p h zero q = p
least x t m p h (suc j) q = h j (omega arith)

oldest_from_lem :
    (t : List Transaction) (n oldest_tid on : ℕ)
    → Older t n oldest_tid on (oldest_from t n oldest_tid on)
unfolding oldest_from
oldest_from_lem [] n o on = inl (refl, λ j p. absurd (omega arith))
oldest_from_lem (x ∷ t) n o on = elim (dec_lt x.sent_tid o) [
  | yes less ↦
      let test : ltb x.sent_tid o ≡ true = ground arith in
      elim (oldest_from_lem t (n + 1) x.sent_tid n) [
        | inl (r, h) ↦
            inr (
              0,
              omega arith,
              rw test (r ∙ omega arith),
              less,
              least x t x.sent_tid (omega arith) h,
            )
        | inr (k, p, r, lower, h) ↦ inr (
          suc k,
          omega arith,
          rw test (r ∙ omega arith),
          omega arith,
          least x t (tid_of t k) (omega arith) h,
        )
      ]
  | no more ↦
      let test : ltb x.sent_tid o ≡ false = ground arith in
      elim (oldest_from_lem t (n + 1) o on) [
        | inl (r, h) ↦ inl (rw test r, least x t o (omega arith) h)
        | inr (k, p, r, lower, h) ↦ inr (
          suc k,
          omega arith,
          rw test (r ∙ omega arith),
          lower,
          least x t (tid_of t k) (omega arith) h,
        )
      ]
]

oldest_slot_lem : (t : List Transaction) → 0 < length t → AllBusy t → IsOldest t (oldest_slot t)
unfolding oldest_slot
oldest_slot_lem [] p busy = absurd (omega arith)
oldest_slot_lem (x ∷ t) p busy = elim (oldest_from_lem t 1 x.sent_tid 0) [
  | inl (r, h) ↦
      subst (IsOldest (x ∷ t)) (sym r) (omega arith, busy, least x t x.sent_tid (omega arith) h)
  | inr (k, q, r, lower, h) ↦
      let at : 1 + k ≡ suc k = omega arith in
      subst (IsOldest (x ∷ t)) (sym (r ∙ at))
        (omega arith, busy, least x t (tid_of t k) (omega arith) h)
]

-- `next_tid` writes the next identifier and the callback into one slot and leaves the others; the
-- slot is the first free one, or, when all are in use, one whose identifier is the least.
pub next_tid_lem :
    (s : Transactions) (cb : ℕ)
    → 0 < length s.t
    → (n : ℕ) × (next_tid s cb ≡ (
      record {
        t = set s.t n (record { sent_tid = u32 (s.next_req_tid + 1); ans_callback = some cb });
        next_req_tid = u32 (s.next_req_tid + 1);
      },
      u32 (s.next_req_tid + 1),
    ))
      × (IsFirstFree s.t n ⊎ IsOldest s.t n)
unfolding next_tid
next_tid_lem s cb h = elim (free_slot_lem s.t 0) [
  | inl (r, busy) ↦ (oldest_slot s.t, rw r, inr (oldest_slot_lem s.t h busy))
  | inr (k, r, first) ↦
      let at : free_slot s.t 0 ≡ some k = r ∙ ap some (omega arith) in (k, rw at, inl first)
]
