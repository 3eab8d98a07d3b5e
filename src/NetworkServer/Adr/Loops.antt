-- ===== src/NetworkServer/Adr/Loops.antt =====
-- The loops of `network_controller_adr` of network_server/adr.c in closed form.
use lo_ra_wan_backend.Base.{ℕ, zero, suc, ◌+◌, ◌-◌, ◌*◌, ◌/◌, ◌<◌, ◌≡◌, arith, min}
use lo_ra_wan_backend.Base.{u8, some}
use lo_ra_wan_backend.NetworkServer.Adr.{raise_rate, lower_power}

-- Steps of 2.5 dB that a margin in sixths of a decibel pays for.
abbrev pub rate_steps : ℕ → ℕ → ℕ → ℕ
rate_steps dr_max data_rate snr = min (dr_max - data_rate) ((snr + 14) / 15)

-- Steps of 3 dB, as long as more than 3 dB are left.
abbrev pub power_steps : ℕ → ℕ → ℕ → ℕ
power_steps max_idx txpwr_idx snr = min (max_idx - txpwr_idx) ((snr - 1) / 18)

pub raise_rate_lem :
    (fuel dr_max data_rate snr : ℕ)
    → dr_max < 256
    → dr_max - data_rate < fuel
    → raise_rate fuel dr_max data_rate snr
      ≡ some
          (data_rate + rate_steps dr_max data_rate snr, snr - 15 * rate_steps dr_max data_rate snr)
unfolding raise_rate
raise_rate_lem zero dr_max data_rate snr h k = absurd (omega arith)
raise_rate_lem (suc fuel) dr_max data_rate snr h k =
    ground (arith, raise_rate_lem fuel dr_max (u8 (data_rate + 1)) (snr - 15) h)

pub lower_power_lem :
    (fuel max_idx txpwr_idx snr : ℕ)
    → max_idx < 256
    → max_idx - txpwr_idx < fuel
    → lower_power fuel max_idx txpwr_idx snr ≡ some (txpwr_idx + power_steps max_idx txpwr_idx snr)
unfolding lower_power
lower_power_lem zero max_idx txpwr_idx snr h k = absurd (omega arith)
lower_power_lem (suc fuel) max_idx txpwr_idx snr h k =
    ground (arith, lower_power_lem fuel max_idx (u8 (txpwr_idx + 1)) (snr - 18) h)
