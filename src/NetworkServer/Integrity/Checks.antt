-- ===== src/NetworkServer/Integrity/Checks.antt =====
-- Which frames pass the integrity tests of network_server/sNS.c and network_server/fNS.c.
use lo_ra_wan_backend.Base.{ℕ, ◌+◌, ◌-◌, ◌*◌, ◌/◌, ◌^◌, ◌<◌, ◌≤◌, ◌≡◌, refl, ap, sym, arith}
use mathlib.Core.Option.{some-injective}
use lo_ra_wan_backend.Base.{
  Option, some, leb, ◌&&◌, length-append, Bool, true, ◌==◌, ==_iff, u8, u32, All,
}
use lo_ra_wan_backend.Base.{
  List, [], ◌∷◌, ◌++◌, ◌↔◌, length, get_or, take, drop, take-length, take-append_length,
  get_or-append_right,
}
use mathlib.Core.Path.{subst}
use lo_ra_wan_backend.NetworkServer.Integrity.{
  Block, octets, word2, word4, rx_mic4, up_block, generate_data_frame_integrity_code, check_mic,
}

-- Four bytes.
abbrev pub IsWord : List ℕ → Type 0
IsWord t = (length t ≡ 4) × All (λ b. b < 256) t

-- The four bytes behind a message.
record Tail (msg mic : List ℕ) (len : ℕ) : Type 0 where
  b0 : get_or (msg ++ mic) (len - 4) 0 ≡ get_or mic 0 0
  b1 : get_or (msg ++ mic) (len - 3) 0 ≡ get_or mic 1 0
  b2 : get_or (msg ++ mic) (len - 2) 0 ≡ get_or mic 2 0
  b3 : get_or (msg ++ mic) (len - 1) 0 ≡ get_or mic 3 0

Tail-bytes : (msg mic : List ℕ) (len : ℕ) → len ≡ length msg + 4 → Tail msg mic len
Tail-bytes msg mic len e = record {
  b0 = get_or-append_right msg mic (len - 4) 0 0 (omega arith);
  b1 = get_or-append_right msg mic (len - 3) 1 0 (omega arith);
  b2 = get_or-append_right msg mic (len - 2) 2 0 (omega arith);
  b3 = get_or-append_right msg mic (len - 1) 3 0 (omega arith);
}

read_word :
    (a b c d : ℕ)
    → a < 256
    → b < 256
    → c < 256
    → d < 256
    → u32 (u32 (u32 (u32 (d * 2 ^ 24) + c * 2 ^ 16) + b * 2 ^ 8) + a)
      ≡ a + b * 2 ^ 8 + c * 2 ^ 16 + d * 2 ^ 24
read_word a b c d ha hb hc hd = omega arith

rx_mic4-append :
    (msg mic : List ℕ) (len : ℕ)
    → IsWord mic
    → len ≡ length msg + 4
    → rx_mic4 (msg ++ mic) len ≡ some (word4 mic)
rx_mic4-append msg (a ∷ b ∷ c ∷ d ∷ []) len w e =
    let t = Tail-bytes msg (a ∷ b ∷ c ∷ d ∷ []) len e in
    let inside : (leb 4 len && leb len (length (msg ++ a ∷ b ∷ c ∷ d ∷ []))) ≡ true =
      ground (arith, e, length-append msg (a ∷ b ∷ c ∷ d ∷ [])) in
    rw (inside, t.b0, t.b1, t.b2, t.b3)
      (ap some (read_word a b c d (omega arith) (omega arith) (omega arith) (omega arith)))
rx_mic4-append msg _ len w e = absurd (omega arith)

word_bytes :
    (a b c d e f g h : ℕ)
    → a < 256
    → b < 256
    → c < 256
    → e < 256
    → f < 256
    → g < 256
    → e + f * 2 ^ 8 + g * 2 ^ 16 + h * 2 ^ 24 ≡ a + b * 2 ^ 8 + c * 2 ^ 16 + d * 2 ^ 24
    → a ∷ b ∷ c ∷ d ∷ [] ≡ e ∷ f ∷ g ∷ h ∷ []
word_bytes a b c d e f g h ha hb hc he hf hg eq =
    let a' : a ≡ e = omega arith in
    let b' : b ≡ f = omega arith in
    let c' : c ≡ g = omega arith in let d' : d ≡ h = omega arith in rw (a', b', c', d')

-- The first four bytes as a number, and as a list.
word4_iff :
    (tag mic : List ℕ)
    → 4 ≤ length tag
    → All (λ b. b < 256) tag
    → IsWord mic
    → ((word4 tag == word4 mic) ≡ true) ↔ (mic ≡ take 4 tag)
word4_iff (e ∷ f ∷ g ∷ h ∷ rest) (a ∷ b ∷ c ∷ d ∷ []) l bytes w = (
  λ same.
      word_bytes a b c d e f g h w.1.0 w.1.1.0 w.1.1.1.0 bytes.0 bytes.1.0 bytes.1.1.0
        ((==_iff (word4 (e ∷ f ∷ g ∷ h ∷ rest)) (word4 (a ∷ b ∷ c ∷ d ∷ []))).0 same),
  λ same.
      (==_iff (word4 (e ∷ f ∷ g ∷ h ∷ rest)) (word4 (a ∷ b ∷ c ∷ d ∷ []))).1 (sym (ap word4 same)),
)
word4_iff _ _ l bytes w = absurd (omega arith)

module _ (cmac : List ℕ → List ℕ → List ℕ)
    (tag_size : (key msg : List ℕ) → length (cmac key msg) ≡ 16)
    (tag_bytes : (key msg : List ℕ) → All (λ b. b < 256) (cmac key msg)) where
  check_mic-word4 :
      (key msg mic : List ℕ) (dev_addr fcnt_up : ℕ)
      → length msg + 4 < 256
      → IsWord mic
      → check_mic cmac key dev_addr fcnt_up (msg ++ mic) (length msg + 4)
        ≡ some
            (word4 (cmac key (octets (up_block dev_addr fcnt_up (length msg)) ++ msg)) == word4 mic)
  unfolding check_mic generate_data_frame_integrity_code
  check_mic-word4 key msg mic dev_addr fcnt_up h w =
      let size : u8 (length msg + 4 + 252) ≡ u8 (length msg) = omega arith in
      let text : take (u8 (length msg + 4 + 252)) (msg ++ mic) ≡ msg =
        take-append_length msg mic (u8 (length msg + 4 + 252)) (omega arith) in
      rw (rx_mic4-append msg mic (length msg + 4) w refl, text)
        (ap
          (λ (n : ℕ). some (
            word4 (cmac key (octets (record (up_block dev_addr fcnt_up 0) { len_msg = n }) ++ msg))
            == word4 mic))
          size)

  -- A LoRaWAN 1.0 frame of up to 255 bytes passes exactly when its last four bytes are the first
  -- four of the CMAC of the message in front of them, behind the block that has the address, the
  -- 32-bit counter and the message's length.
  pub check_mic_lem :
      (key msg mic : List ℕ) (dev_addr fcnt_up : ℕ)
      → length msg + 4 < 256
      → IsWord mic
      → (check_mic cmac key dev_addr fcnt_up (msg ++ mic) (length msg + 4) ≡ some true)
        ↔ (mic ≡ take 4 (cmac key (octets (up_block dev_addr fcnt_up (length msg)) ++ msg)))
  check_mic_lem key msg mic dev_addr fcnt_up h w =
      let sealed : List ℕ = octets (up_block dev_addr fcnt_up (length msg)) ++ msg in
      let passes =
        word4_iff (cmac key sealed) mic (omega (arith, tag_size key sealed)) (tag_bytes key sealed)
          w in
      subst (λ (b : Option Bool). (b ≡ some true) ↔ (mic ≡ take 4 (cmac key sealed)))
        (sym (check_mic-word4 key msg mic dev_addr fcnt_up h w))
        (
          λ same. passes.0 (some-injective (word4 (cmac key sealed) == word4 mic) true same),
          λ same. ap some (passes.1 same),
        )

-- The fields of a block within their widths.
abbrev pub IsPacked : Block → Type 0
IsPacked b =
    (b.header < 2 ^ 8)
    × (b.conf_fcnt < 2 ^ 16)
    × (b.dr < 2 ^ 8)
    × (b.ch < 2 ^ 8)
    × (b.dir < 2 ^ 8)
    × (b.dev_addr < 2 ^ 32)
    × (b.fcnt < 2 ^ 32)
    × (b.zero8 < 2 ^ 8)
    × (b.len_msg < 2 ^ 8)

-- The fields at their offsets.
abbrev pub unpack : List ℕ → Block
unpack o = record {
  header = get_or o 0 0;
  conf_fcnt = word2 (drop 1 o);
  dr = get_or o 3 0;
  ch = get_or o 4 0;
  dir = get_or o 5 0;
  dev_addr = word4 (drop 6 o);
  fcnt = word4 (drop 10 o);
  zero8 = get_or o 14 0;
  len_msg = get_or o 15 0;
}

bytes-word4 :
    (n : ℕ)
    → n < 2 ^ 32
    → u8 n + u8 (n / 2 ^ 8) * 2 ^ 8 + u8 (n / 2 ^ 16) * 2 ^ 16 + u8 (n / 2 ^ 24) * 2 ^ 24 ≡ n
bytes-word4 n h = omega arith

-- A block of fields within their widths is 16 octets, from which all fields are read back: no two
-- frames that differ in counter, address, direction or length share a block.
pub unpack-octets : (b : Block) → IsPacked b → (length (octets b) ≡ 16) × (unpack (octets b) ≡ b)
unfolding octets
unpack-octets b p =
    let h : u8 b.header ≡ b.header = omega arith in
    let c : u8 b.conf_fcnt + u8 (b.conf_fcnt / 2 ^ 8) * 2 ^ 8 ≡ b.conf_fcnt = omega arith in
    let d : u8 b.dr ≡ b.dr = omega arith in
    let e : u8 b.ch ≡ b.ch = omega arith in
    let f : u8 b.dir ≡ b.dir = omega arith in
    let z : u8 b.zero8 ≡ b.zero8 = omega arith in
    let l : u8 b.len_msg ≡ b.len_msg = omega arith in
    let a = bytes-word4 b.dev_addr (omega arith) in
    let n = bytes-word4 b.fcnt (omega arith) in
    (
      refl,
      λ i. record {
        header = h i;
        conf_fcnt = c i;
        dr = d i;
        ch = e i;
        dir = f i;
        dev_addr = a i;
        fcnt = n i;
        zero8 = z i;
        len_msg = l i;
      },
    )

-- Only the message counts, not what lies behind it.
pub generate_same_message :
    (cmac : List ℕ → List ℕ → List ℕ) (b : Block) (key p q : List ℕ)
    → take b.len_msg p ≡ take b.len_msg q
    → generate_data_frame_integrity_code cmac b key p
      ≡ generate_data_frame_integrity_code cmac b key q
unfolding generate_data_frame_integrity_code
generate_same_message cmac b key p q e = rw e

split-word4 :
    (t : List ℕ)
    → 4 ≤ length t
    → All (λ b. b < 256) t
    → u8 (word4 t) ∷ u8 (word4 t / 2 ^ 8) ∷ u8 (word4 t / 2 ^ 16) ∷ u8 (word4 t / 2 ^ 24) ∷ []
      ≡ take 4 t
split-word4 (a ∷ b ∷ c ∷ d ∷ t) l h =
    let e0 : u8 (a + b * 2 ^ 8 + c * 2 ^ 16 + d * 2 ^ 24) ≡ a = omega (arith, h.0) in
    let e1 : u8 ((a + b * 2 ^ 8 + c * 2 ^ 16 + d * 2 ^ 24) / 2 ^ 8) ≡ b =
      omega (arith, h.0, h.1.0) in
    let e2 : u8 ((a + b * 2 ^ 8 + c * 2 ^ 16 + d * 2 ^ 24) / 2 ^ 16) ≡ c =
      omega (arith, h.0, h.1.0, h.1.1.0) in
    let e3 : u8 ((a + b * 2 ^ 8 + c * 2 ^ 16 + d * 2 ^ 24) / 2 ^ 24) ≡ d =
      omega (arith, h.0, h.1.0, h.1.1.0, h.1.1.1.0) in
    rw (e0, e1, e2, e3) refl
split-word4 _ l h = absurd (omega arith)

-- The code of a whole message, byte by byte: the first four of the CMAC behind its block.
pub generate-bytes :
    (cmac : List ℕ → List ℕ → List ℕ) (b : Block) (key msg : List ℕ)
    → ((k m : List ℕ) → length (cmac k m) ≡ 16)
    → ((k m : List ℕ) → All (λ x. x < 256) (cmac k m))
    → b.len_msg ≡ length msg
    → let code = generate_data_frame_integrity_code cmac b key msg in
      u8 code ∷ u8 (code / 2 ^ 8) ∷ u8 (code / 2 ^ 16) ∷ u8 (code / 2 ^ 24) ∷ []
      ≡ take 4 (cmac key (octets b ++ msg))
unfolding generate_data_frame_integrity_code
generate-bytes cmac b key msg size bytes e =
    let whole : take b.len_msg msg ≡ msg = rw e (take-length msg) in
    let tag = cmac key (octets b ++ msg) in
    rw whole
      (split-word4 tag (omega (arith, size key (octets b ++ msg))) (bytes key (octets b ++ msg)))
