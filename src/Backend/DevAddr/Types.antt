-- ===== src/Backend/DevAddr/Types.antt =====
-- `parseDevAddr` of libbackend/libserver.c on an address of each type.
use lo_ra_wan_backend.Base.{ℕ, ◌+◌, ◌*◌, ◌^◌, ◌<◌, ◌≡◌, arith}
use lo_ra_wan_backend.Base.{some, ◌∙◌}
use lo_ra_wan_backend.Backend.DevAddr.{parse_dev_addr}
use lo_ra_wan_backend.Backend.DevAddr.Split.{parse_dev_addr-split}

pub parse_type0 :
    (d id n : ℕ)
    → d ≡ 0x0000_0000 + id * 2 ^ 25 + n
    → id < 2 ^ 6
    → n < 2 ^ 25
    → parse_dev_addr d ≡ some (record { net_id = 0 * 2 ^ 21 + id; nwk_id = id; nwk_addr = n })
parse_type0 d id n e p q = parse_dev_addr-split d ∙ ground arith

pub parse_type1 :
    (d id n : ℕ)
    → d ≡ 0x8000_0000 + id * 2 ^ 24 + n
    → id < 2 ^ 6
    → n < 2 ^ 24
    → parse_dev_addr d ≡ some (record { net_id = 1 * 2 ^ 21 + id; nwk_id = id; nwk_addr = n })
parse_type1 d id n e p q = parse_dev_addr-split d ∙ ground arith

pub parse_type2 :
    (d id n : ℕ)
    → d ≡ 0xc000_0000 + id * 2 ^ 20 + n
    → id < 2 ^ 9
    → n < 2 ^ 20
    → parse_dev_addr d ≡ some (record { net_id = 2 * 2 ^ 21 + id; nwk_id = id; nwk_addr = n })
parse_type2 d id n e p q = parse_dev_addr-split d ∙ ground arith

pub parse_type3 :
    (d id n : ℕ)
    → d ≡ 0xe000_0000 + id * 2 ^ 18 + n
    → id < 2 ^ 10
    → n < 2 ^ 18
    → parse_dev_addr d ≡ some (record { net_id = 3 * 2 ^ 21 + id; nwk_id = id; nwk_addr = n })
parse_type3 d id n e p q = parse_dev_addr-split d ∙ ground arith

pub parse_type4 :
    (d id n : ℕ)
    → d ≡ 0xf000_0000 + id * 2 ^ 16 + n
    → id < 2 ^ 11
    → n < 2 ^ 16
    → parse_dev_addr d ≡ some (record { net_id = 4 * 2 ^ 21 + id; nwk_id = id; nwk_addr = n })
parse_type4 d id n e p q = parse_dev_addr-split d ∙ ground arith

pub parse_type5 :
    (d id n : ℕ)
    → d ≡ 0xf800_0000 + id * 2 ^ 13 + n
    → id < 2 ^ 13
    → n < 2 ^ 13
    → parse_dev_addr d ≡ some (record { net_id = 5 * 2 ^ 21 + id; nwk_id = id; nwk_addr = n })
parse_type5 d id n e p q = parse_dev_addr-split d ∙ ground arith

pub parse_type6 :
    (d id n : ℕ)
    → d ≡ 0xfc00_0000 + id * 2 ^ 10 + n
    → id < 2 ^ 15
    → n < 2 ^ 10
    → parse_dev_addr d ≡ some (record { net_id = 6 * 2 ^ 21 + id; nwk_id = id; nwk_addr = n })
parse_type6 d id n e p q = parse_dev_addr-split d ∙ ground arith

pub parse_type7 :
    (d id n : ℕ)
    → d ≡ 0xfe00_0000 + id * 2 ^ 7 + n
    → id < 2 ^ 17
    → n < 2 ^ 7
    → parse_dev_addr d ≡ some (record { net_id = 7 * 2 ^ 21 + id; nwk_id = id; nwk_addr = n })
parse_type7 d id n e p q = parse_dev_addr-split d ∙ ground arith
