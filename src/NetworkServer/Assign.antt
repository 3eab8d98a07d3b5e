-- ===== src/NetworkServer/Assign.antt =====
-- The search for a device address at a join: `getDevAddr` of network_server/sNS.c. The SQL database
-- is not this code: the module takes the query for an address as a function, whose `none` is a
-- query that fails.
use lo_ra_wan_backend.Base.{
  ℕ, zero, suc, ◌+◌, ◌-◌, ◌^◌, ◌<◌, ◌≤◌, ◌≡◌, refl, arith, ◌==◌, ◌⊎◌, inl, inr,
}
use lo_ra_wan_backend.Base.{
  Bool, true, false, if◌then◌else◌, Option, none, some, List, [], ◌∷◌, bit_or, u32,
}
use native.Mathlib.Decide.{dec_lt}
use native.Mathlib.Nat.{pow-le-pow_right}

abbrev pub none_dev_addr : ℕ
none_dev_addr = 0xffff_ffff

-- Is the address in the list of the motes? An entry without a mote is `none`.
pub listed : List (Option ℕ) → ℕ → Bool
listed [] attempt = false
listed (none ∷ motes) attempt = listed motes attempt
listed (some dev_addr ∷ motes) attempt =
    let rest = listed motes attempt in if dev_addr == attempt then true else rest

module _ (in_sessions : ℕ → Option Bool) (motes : List (Option ℕ)) (dev_addr_base : ℕ) where
  -- The `for` loop, with `rounds` rounds left; `dev_addr` is the mote's address at the call.
  pub assign_from : ℕ → ℕ → ℕ → ℕ
  unfolding listed
  assign_from zero nwk_addr dev_addr = dev_addr
  assign_from (suc rounds) nwk_addr dev_addr =
      let attempt = bit_or dev_addr_base nwk_addr in
      let rest = assign_from rounds (nwk_addr + 1) dev_addr in
      if listed motes attempt then rest else elim (in_sessions attempt) [
        | none ↦ none_dev_addr
        | some row ↦ if row then rest else attempt
      ]

  pub get_dev_addr : ℕ → ℕ → ℕ
  unfolding assign_from
  get_dev_addr nwk_addr_bits dev_addr = assign_from (u32 (2 ^ nwk_addr_bits) - 1) 0 dev_addr

  -- The address is in use, in the list or in the database.
  abbrev pub IsTaken : ℕ → Type 0
  IsTaken n =
      (listed motes (bit_or dev_addr_base n) ≡ true)
      ⊎ ((listed motes (bit_or dev_addr_base n) ≡ false)
          × (in_sessions (bit_or dev_addr_base n) ≡ some true))

  abbrev pub AllTaken : ℕ → ℕ → Type 0
  AllTaken from to = (k : ℕ) → from ≤ k → k < to → IsTaken k

  -- How the search among the NwkAddrs from `from` to `to` ends.
  pub data Search (from to dev_addr : ℕ) : ℕ → Type 0 where
    found :
        (n : ℕ)
        → from ≤ n
        → n < to
        → AllTaken from n
        → listed motes (bit_or dev_addr_base n) ≡ false
        → in_sessions (bit_or dev_addr_base n) ≡ some false
        → Search from to dev_addr (bit_or dev_addr_base n)
    failed :
        (n : ℕ)
        → from ≤ n
        → n < to
        → AllTaken from n
        → in_sessions (bit_or dev_addr_base n) ≡ none
        → Search from to dev_addr none_dev_addr
    exhausted : AllTaken from to → Search from to dev_addr dev_addr

  no_address : (n : ℕ) → AllTaken n n
  no_address n k p q = absurd (omega arith)

  one_more : (from to : ℕ) → IsTaken from → AllTaken (from + 1) to → AllTaken from to
  one_more from to t h k p q = elim (dec_lt from k) [
    | yes after ↦ h k (omega arith) q
    | no at ↦ let same : k ≡ from = omega arith in rw same t
  ]

  later :
      {from to dev_addr result : ℕ}
      → IsTaken from
      → Search (from + 1) to dev_addr result
      → Search from to dev_addr result
  later {from} t (found n p q before free new) =
      found n (omega arith) q (one_more from n t before) free new
  later {from} t (failed n p q before error) =
      failed n (omega arith) q (one_more from n t before) error
  later {from} {to} t (exhausted all) = exhausted (one_more from to t all)

  -- One round, by the answers of the list and of the database.
  round :
      (from to dev_addr rest : ℕ) (in_list : Bool) (answer : Option Bool)
      → listed motes (bit_or dev_addr_base from) ≡ in_list
      → in_sessions (bit_or dev_addr_base from) ≡ answer
      → from < to
      → Search (from + 1) to dev_addr rest
      → Search from to dev_addr (
          if in_list then rest else elim answer [
            | none ↦ none_dev_addr
            | some row ↦ if row then rest else bit_or dev_addr_base from
          ])
  round from to dev_addr rest true answer p q h s = later (inl p) s
  round from to dev_addr rest false none p q h s = failed from (omega arith) h (no_address from) q
  round from to dev_addr rest false (some true) p q h s = later (inr (p, q)) s
  round from to dev_addr rest false (some false) p q h s =
      found from (omega arith) h (no_address from) p q

  assign_from_lem :
      (rounds from to dev_addr : ℕ)
      → to ≡ from + rounds
      → Search from to dev_addr (assign_from rounds from dev_addr)
  unfolding assign_from
  assign_from_lem zero from to dev_addr e = exhausted (λ k p q. absurd (omega arith))
  assign_from_lem (suc rounds) from to dev_addr e =
      round from to dev_addr (assign_from rounds (from + 1) dev_addr) _ _ refl refl (omega arith)
        (assign_from_lem rounds (from + 1) to dev_addr (omega arith))

  -- `getDevAddr` tries the NwkAddrs from 0 on, but never the last one, 2^bits - 1: it gives the
  -- least of those it tries whose address is neither in the list nor in the database; a failing query
  -- before it gives `NONE_DEVADDR`; and when all that it tries are taken, the mote keeps the address
  -- that it had, even if the last one is free.
  pub get_dev_addr_lem :
      (nwk_addr_bits dev_addr : ℕ)
      → nwk_addr_bits < 32
      → Search 0 (2 ^ nwk_addr_bits - 1) dev_addr (get_dev_addr nwk_addr_bits dev_addr)
  unfolding get_dev_addr
  get_dev_addr_lem bits dev_addr h =
      let word : u32 (2 ^ bits) ≡ 2 ^ bits =
        omega (arith, pow-le-pow_right {n = 2} (omega arith) {i = bits} {j = 31} (omega arith)) in
      assign_from_lem (u32 (2 ^ bits) - 1) 0 (2 ^ bits - 1) dev_addr (omega (arith, word))
