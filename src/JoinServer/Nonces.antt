-- ===== src/JoinServer/Nonces.antt =====
-- The nonce of a join or rejoin request of LoRaWAN 1.1 in `parse_rf_join_req` of join_server/main.c.
-- The row of `joinmotes` has the last nonce and the next join nonce.
use lo_ra_wan_backend.Base.{ℕ, zero, suc, ◌+◌, ◌%◌, ◌^◌, if◌then◌else◌, leb, Option, none, some}

pub record JoinMote : Type 0 where
  pub nonce_last : ℕ
  pub join_nonce : ℕ

-- The row after a request, and the join nonce for the answer; `none` is `ActivationDisallowed`,
-- which leaves the row.
unfoldable pub accept_nonce : JoinMote → ℕ → Option (JoinMote × ℕ)
accept_nonce row rx_nonce =
    if leb rx_nonce row.nonce_last
    then none
    else some (
      record { nonce_last = row.nonce_last + 1; join_nonce = row.join_nonce + 1 },
      row.join_nonce % 2 ^ 24,
    )

abbrev kept : JoinMote → Option (JoinMote × ℕ) → JoinMote
kept row none = row
kept row (some (row', answer)) = row'

-- The row after the same request was received `times` times.
pub repeat_nonce : ℕ → JoinMote → ℕ → JoinMote
unfolding accept_nonce
repeat_nonce zero row rx_nonce = row
repeat_nonce (suc times) row rx_nonce =
    repeat_nonce times (kept row (accept_nonce row rx_nonce)) rx_nonce
