-- ===== src/Backend/Bytes.antt =====
-- Little-endian integers and EUIs in buffers (libbackend/libserver.c). A writer appends to what
-- stands before its pointer, and returns the pointer behind what it wrote.
use lo_ra_wan_backend.Base.{
  ℕ, zero, suc, ◌+◌, ◌*◌, ◌/◌, ◌%◌, ◌^◌, ◌<◌, ◌≡◌, refl, ap, sym, ◌∙◌, arith, u8, u64,
}
use lo_ra_wan_backend.Base.{List, [], ◌∷◌, ◌++◌, length, get_or, bit_and, bit_or, All}
use lo_ra_wan_backend.Base.Bits.{bit_or_concat, bit_and_mask}

unfoldable pub write4_byte_value : List ℕ → ℕ → List ℕ
write4_byte_value output input =
    output ++ u8 input ∷ u8 (input / 2 ^ 8) ∷ u8 (input / 2 ^ 16) ∷ u8 (input / 2 ^ 24) ∷ []

unfoldable pub write3_byte_value : List ℕ → ℕ → List ℕ
write3_byte_value output input = output ++ u8 input ∷ u8 (input / 2 ^ 8) ∷ u8 (input / 2 ^ 16) ∷ []

unfoldable pub write2_byte_value : List ℕ → ℕ → List ℕ
write2_byte_value output input = output ++ u8 input ∷ u8 (input / 2 ^ 8) ∷ []

unfoldable pub write1_byte_value : List ℕ → ℕ → List ℕ
write1_byte_value output input = output ++ u8 input ∷ []

abbrev pub lora_eui_length : ℕ
lora_eui_length = 8

-- The loop `for (i = LORA_EUI_LENGTH - 1; i >= 0; i--)`, with `i` rounds left.
pub eui_from : ℕ → List ℕ → ℕ → ℕ
eui_from zero eui ret = ret
eui_from (suc i) eui ret = eui_from i eui (bit_or (u64 (ret * 2 ^ 8)) (get_or eui i 0))

unfoldable pub eui_buf_to_uint64 : List ℕ → ℕ
unfolding eui_from
eui_buf_to_uint64 eui = eui_from lora_eui_length eui 0

pub eui_bytes : ℕ → ℕ → List ℕ
eui_bytes zero n = []
eui_bytes (suc rounds) n = bit_and n 0xff ∷ eui_bytes rounds (n / 2 ^ 8)

pub uint64_to_eui_buf : ℕ → List ℕ
unfolding eui_bytes
uint64_to_eui_buf n = eui_bytes lora_eui_length n

abbrev pub IsByte : ℕ → Type 0
IsByte b = b < 256

-- The number that bytes stand for, least significant first.
abbrev pub little_endian : List ℕ → ℕ
little_endian [] = 0
little_endian (b ∷ bs) = b + 256 * little_endian bs

-- The four writers put the number little-endian, as many bytes as their names say, behind what
-- stands in the buffer; of a number that fits nothing is lost.
pub writers_lem :
    (output : List ℕ) (input : ℕ)
    → input < 2 ^ 32
    → (b4 : List ℕ) × (write4_byte_value output input ≡ output ++ b4)
      × (length b4 ≡ 4)
      × All IsByte b4
      × (little_endian b4 ≡ input)
      × (b3 : List ℕ) × (write3_byte_value output input ≡ output ++ b3)
      × (length b3 ≡ 3)
      × All IsByte b3
      × (little_endian b3 ≡ input % 2 ^ 24)
      × (b2 : List ℕ) × (write2_byte_value output input ≡ output ++ b2)
      × (length b2 ≡ 2)
      × All IsByte b2
      × (little_endian b2 ≡ input % 2 ^ 16)
      × (write1_byte_value output input ≡ output ++ input % 2 ^ 8 ∷ [])
unfolding write4_byte_value write3_byte_value write2_byte_value write1_byte_value
writers_lem output input h = (
  u8 input ∷ u8 (input / 2 ^ 8) ∷ u8 (input / 2 ^ 16) ∷ u8 (input / 2 ^ 24) ∷ [],
  refl,
  refl,
  omega arith,
  omega arith,
  u8 input ∷ u8 (input / 2 ^ 8) ∷ u8 (input / 2 ^ 16) ∷ [],
  refl,
  refl,
  omega arith,
  omega arith,
  u8 input ∷ u8 (input / 2 ^ 8) ∷ [],
  refl,
  refl,
  omega arith,
  omega arith,
  refl,
)

-- Eight bytes, written out.
abbrev eui_list : ℕ → ℕ → ℕ → ℕ → ℕ → ℕ → ℕ → ℕ → List ℕ
eui_list a b c d e f g h = a ∷ b ∷ c ∷ d ∷ e ∷ f ∷ g ∷ h ∷ []

shift_in : (q r : ℕ) → q < 2 ^ 56 → r < 256 → bit_or (u64 (q * 2 ^ 8)) r ≡ q * 256 + r
shift_in q r h k =
    let whole : u64 (q * 2 ^ 8) ≡ q * 2 ^ 8 = omega arith in rw whole (bit_or_concat 8 q r k)

-- Reading takes the bytes as they stand.
eui_from-little_endian :
    (a b c d e f g h : ℕ)
    → All IsByte (eui_list a b c d e f g h)
    → eui_buf_to_uint64 (eui_list a b c d e f g h) ≡ little_endian (eui_list a b c d e f g h)
unfolding eui_buf_to_uint64
eui_from-little_endian a b c d e f g h s =
    let x0 : ℕ = 0 * 256 + h in
    let x1 : ℕ = x0 * 256 + g in
    let x2 : ℕ = x1 * 256 + f in
    let x3 : ℕ = x2 * 256 + e in
    let x4 : ℕ = x3 * 256 + d in
    let x5 : ℕ = x4 * 256 + c in
    rw
      (
        shift_in 0 h (omega arith) (omega arith),
        shift_in x0 g (omega arith) (omega arith),
        shift_in x1 f (omega arith) (omega arith),
        shift_in x2 e (omega arith) (omega arith),
        shift_in x3 d (omega arith) (omega arith),
        shift_in x4 c (omega arith) (omega arith),
        shift_in x5 b (omega arith) (omega arith),
        shift_in (x5 * 256 + b) a (omega arith) (omega arith),
      )
      (omega arith)

eui_bytes-little_endian :
    (bs : List ℕ) → All IsByte bs → eui_bytes (length bs) (little_endian bs) ≡ bs
unfolding eui_bytes
eui_bytes-little_endian [] h = refl
eui_bytes-little_endian (b ∷ bs) (hb, h) =
    let n : ℕ = b + 256 * little_endian bs in
    let low : bit_and n 0xff ≡ b = omega (arith, bit_and_mask 8 n) in
    let high : n / 2 ^ 8 ≡ little_endian bs = omega arith in
    rw (low, high) (ap (λ l. b ∷ l) (eui_bytes-little_endian bs h))

read_eui :
    (eui : List ℕ) → length eui ≡ 8 → All IsByte eui → eui_buf_to_uint64 eui ≡ little_endian eui
read_eui (a ∷ b ∷ c ∷ d ∷ e ∷ f ∷ g ∷ h ∷ []) n s = eui_from-little_endian a b c d e f g h s
read_eui _ n s = absurd (omega arith)

write_eui :
    (eui : List ℕ) → length eui ≡ 8 → All IsByte eui → uint64_to_eui_buf (little_endian eui) ≡ eui
unfolding uint64_to_eui_buf
write_eui eui n s =
    ap (λ (k : ℕ). eui_bytes k (little_endian eui)) (sym n) ∙ eui_bytes-little_endian eui s

-- Reading a buffer of eight bytes gives the little-endian number, and writing that number gives
-- the buffer back.
pub eui_buf_round_trip :
    (eui : List ℕ)
    → length eui ≡ 8
    → All IsByte eui
    → (eui_buf_to_uint64 eui ≡ little_endian eui)
      × (uint64_to_eui_buf (eui_buf_to_uint64 eui) ≡ eui)
eui_buf_round_trip eui n s =
    (read_eui eui n s, ap uint64_to_eui_buf (read_eui eui n s) ∙ write_eui eui n s)
