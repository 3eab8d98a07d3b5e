-- ===== src/Backend/Hex.antt =====
-- Hexadecimal text (libbackend/libserver.c). A string is the list of its bytes before the NUL.
use lo_ra_wan_backend.Base.{ℕ, suc, ◌+◌, ◌-◌, ◌*◌, ◌/◌, ◌%◌, ◌<◌, ◌≡◌, refl, arith}
use lo_ra_wan_backend.Base.{
  Bool, true, false, ◌&&◌, ◌||◌, leb, if◌then◌else◌, Option, none, some, ◌>>=◌,
}
use lo_ra_wan_backend.Base.{List, [], ◌∷◌, length, All}
use mathlib.Core.Path.{subst, subst₂}

abbrev pub between : ℕ → ℕ → ℕ → Bool
between lo hi c = leb lo c && leb c hi

-- `none` is the -1.
pub get_int : ℕ → Option ℕ
get_int c =
    if between b'0' b'9' c
    then some (c - b'0')
    else if between b'A' b'F' c
    then some (10 + c - b'A')
    else if between b'a' b'f' c
    then some (10 + c - b'a')
    else none

-- The bytes written, two characters each; a last odd character is not read.
pub ascii_hex_to_buf : List ℕ → Option (List ℕ)
ascii_hex_to_buf [] = some []
ascii_hex_to_buf (c ∷ []) = some []
ascii_hex_to_buf (c ∷ d ∷ in_str) = do
  hi ← get_int c
  lo ← get_int d
  rest ← ascii_hex_to_buf in_str
  some ((hi * 16 + lo) ∷ rest)

pub num_hex_digits : List ℕ → ℕ
num_hex_digits [] = 0
num_hex_digits (c ∷ cs) =
    let rest = num_hex_digits cs in
    if between b'0' b'9' c || (between b'A' b'F' c || between b'a' b'f' c) then suc rest else 0

-- What `sprintf("%02x")` prints for a nibble.
abbrev pub hex_digit : ℕ → ℕ
hex_digit n = if leb n 9 then n + b'0' else n - 10 + b'a'

abbrev pub to_hex : List ℕ → List ℕ
to_hex [] = []
to_hex (b ∷ bs) = hex_digit (b / 16) ∷ hex_digit (b % 16) ∷ to_hex bs

pub get_int-hex_digit : (n : ℕ) → n < 16 → get_int (hex_digit n) ≡ some n
unfolding get_int
get_int-hex_digit n h = ground arith

get_int-lt : (c : ℕ) {n : ℕ} → get_int c ≡ some n → n < 16
unfolding get_int
get_int-lt c h = ground arith

abbrev pub is_some : Option (List ℕ) → Bool
is_some none = false
is_some (some x) = true

abbrev pub is_hex : ℕ → Bool
is_hex c = between b'0' b'9' c || (between b'A' b'F' c || between b'a' b'f' c)

abbrev pub has_value : Option ℕ → Bool
has_value none = false
has_value (some x) = true

get_int_iff : (c : ℕ) → has_value (get_int c) ≡ is_hex c
unfolding get_int
get_int_iff c = ground arith

-- Reading the hexadecimal text of bytes gives the bytes.
pub ascii_hex_to_buf-to_hex :
    (bs : List ℕ) → All (λ b. b < 256) bs → ascii_hex_to_buf (to_hex bs) ≡ some bs
unfolding ascii_hex_to_buf
ascii_hex_to_buf-to_hex [] h = refl
ascii_hex_to_buf-to_hex (b ∷ bs) h =
    let joined : b / 16 * 16 + b % 16 ≡ b = omega arith in
    rw (
      get_int-hex_digit (b / 16) (omega arith),
      get_int-hex_digit (b % 16) (omega arith),
      ascii_hex_to_buf-to_hex bs h.1,
      joined,
    )

pair_iff :
    (hi lo : Option ℕ) (rest : Option (List ℕ)) (k n : ℕ)
    → is_some rest ≡ leb (2 * k) n
    → is_some (hi >>= λ x. lo >>= λ y. rest >>= λ l. some ((x * 16 + y) ∷ l))
      ≡ leb (2 * suc k) (if has_value hi then suc (if has_value lo then suc n else 0) else 0)
pair_iff none lo rest k n h = ground arith
pair_iff (some x) none rest k n h = ground arith
pair_iff (some x) (some y) none k n h = ground arith
pair_iff (some x) (some y) (some l) k n h = ground arith

-- A text is read exactly when its digits, up to the first that is none, cover all its pairs.
pub ascii_hex_to_buf_iff :
    (in_str : List ℕ)
    → is_some (ascii_hex_to_buf in_str) ≡ leb (2 * (length in_str / 2)) (num_hex_digits in_str)
unfolding ascii_hex_to_buf num_hex_digits
ascii_hex_to_buf_iff [] = refl
ascii_hex_to_buf_iff (c ∷ []) = ground arith
ascii_hex_to_buf_iff (c ∷ d ∷ in_str) =
    let digits : ℕ = num_hex_digits in_str in
    let count : suc (suc (length in_str)) / 2 ≡ suc (length in_str / 2) = omega arith in
    rw count (
      subst₂
        (λ p q.
          is_some (ascii_hex_to_buf (c ∷ d ∷ in_str))
          ≡ leb (2 * suc (length in_str / 2)) (if p then suc (if q then suc digits else 0) else 0))
        (get_int_iff c) (get_int_iff d)
        (pair_iff (get_int c) (get_int d) (ascii_hex_to_buf in_str) (length in_str / 2) digits
          (ascii_hex_to_buf_iff in_str)))

pair_bytes :
    (hi lo : Option ℕ) (rest : Option (List ℕ)) (n : ℕ) (out : List ℕ)
    → ((x : ℕ) → hi ≡ some x → x < 16)
    → ((x : ℕ) → lo ≡ some x → x < 16)
    → ((l : List ℕ) → rest ≡ some l → (length l ≡ n) × All (λ b. b < 256) l)
    → (hi >>= λ x. lo >>= λ y. rest >>= λ l. some ((x * 16 + y) ∷ l)) ≡ some out
    → (length out ≡ suc n) × All (λ b. b < 256) out
pair_bytes none lo rest n out p q r h = cc
pair_bytes (some x) none rest n out p q r h = cc
pair_bytes (some x) (some y) none n out p q r h = cc
pair_bytes (some x) (some y) (some l) n out p q r h =
    let e : (x * 16 + y) ∷ l ≡ out = cc in
    let (count, ok) = r l refl in
    subst (λ o. (length o ≡ suc n) × All (λ b. b < 256) o) e
      (omega (arith, count), (omega (arith, p x refl, q y refl), ok))

read_bytes :
    (in_str out : List ℕ)
    → ascii_hex_to_buf in_str ≡ some out
    → (length out ≡ length in_str / 2) × All (λ b. b < 256) out
unfolding ascii_hex_to_buf
read_bytes [] out h =
    let e : [] ≡ out = cc in subst (λ o. (length o ≡ 0) × All (λ b. b < 256) o) e (refl, tt)
read_bytes (c ∷ []) out h =
    let e : [] ≡ out = cc in subst (λ o. (length o ≡ 1 / 2) × All (λ b. b < 256) o) e (refl, tt)
read_bytes (c ∷ d ∷ in_str) out h =
    let (count, ok) =
      pair_bytes (get_int c) (get_int d) (ascii_hex_to_buf in_str) (length in_str / 2) out
        (λ x e. get_int-lt c e) (λ x e. get_int-lt d e) (λ l e. read_bytes in_str l e) h in
    (omega (arith, count), ok)

-- What is read has a byte for each pair of characters.
pub ascii_hex_to_buf_bytes :
    (in_str : List ℕ) {out : List ℕ}
    → ascii_hex_to_buf in_str ≡ some out
    → (length out ≡ length in_str / 2) × All (λ b. b < 256) out
ascii_hex_to_buf_bytes in_str h = read_bytes in_str _ h
