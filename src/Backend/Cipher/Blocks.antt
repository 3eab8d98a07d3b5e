-- ===== src/Backend/Cipher/Blocks.antt =====
-- Bytes combined with a stream, block by block: `BlockExOr` of libbackend/libserver.c.
use lo_ra_wan_backend.Base.{ℕ, zero, suc, ◌+◌, ◌-◌, ◌<◌, ◌≤◌, ◌≡◌, refl, ap, ap₂, sym, ◌∙◌, arith}
use lo_ra_wan_backend.Base.{Option, some, ◌>>=◌, bit_xor}
use lo_ra_wan_backend.Base.{
  List, [], ◌∷◌, ◌++◌, length, get_or, drop, length-append, get_or-append_left, get_or-append_right,
  get_or-drop,
}
use lo_ra_wan_backend.Backend.Cipher.{block_ex_or}
use mathlib.Core.Path.{subst₂}
use native.Mathlib.Decide.{dec_lt}

-- `result` is `m` bytes, each the byte of `input` combined with that of `stream`.
pub record Combined (m : ℕ) (stream : ℕ → ℕ) (input : List ℕ) (result : Option (List ℕ))
    : Type 0 where
  pub out : List ℕ
  pub returns : result ≡ some out
  pub size : length out ≡ m
  pub bytes : (j : ℕ) → j < m → get_or out j 0 ≡ bit_xor (stream j) (get_or input j 0)

head_or :
    (x y : ℕ) (l r : List ℕ) (n : ℕ) (out : List ℕ)
    → ((j : ℕ) → j < n → get_or out j 0 ≡ bit_xor (get_or l j 0) (get_or r j 0))
    → (j : ℕ) → j < suc n
    → get_or (bit_xor x y ∷ out) j 0 ≡ bit_xor (get_or (x ∷ l) j 0) (get_or (y ∷ r) j 0)
head_or x y l r n out h zero p = refl
head_or x y l r n out h (suc j) p = h j (omega arith)

pub block_ex_or_lem :
    (l r : List ℕ) (n : ℕ)
    → n ≤ length l
    → n ≤ length r
    → Combined n (λ j. get_or l j 0) r (block_ex_or l r n)
unfolding block_ex_or
block_ex_or_lem l r zero p q = record {
  out = [];
  returns = refl;
  size = refl;
  bytes = λ j h. absurd (omega arith);
}
block_ex_or_lem [] r (suc n) p q = absurd (omega arith)
block_ex_or_lem (x ∷ l) [] (suc n) p q = absurd (omega arith)
block_ex_or_lem (x ∷ l) (y ∷ r) (suc n) p q =
    let c = block_ex_or_lem l r n (omega arith) (omega arith) in
    record {
      out = bit_xor x y ∷ c.out;
      returns = rw c.returns;
      size = ap suc c.size;
      bytes = λ j h. head_or x y l r n c.out c.bytes j h;
    }

pub join_block :
    (n m : ℕ) (s t : ℕ → ℕ) (input : List ℕ) (first rest : Option (List ℕ))
    → Combined n s input first
    → Combined m t (drop n input) rest
    → ((j : ℕ) → j < m → s (n + j) ≡ t j)
    → Combined (n + m) s input (first >>= λ here. rest >>= λ more. some (here ++ more))
join_block n m s t input first rest a b same = record {
  out = a.out ++ b.out;
  returns = rw (a.returns, b.returns);
  size = omega (arith, length-append a.out b.out, a.size, b.size);
  bytes = λ j h. elim (dec_lt j n) [
    | yes below ↦ get_or-append_left a.out b.out j 0 (omega (arith, a.size)) ∙ a.bytes j below
    | no above ↦
        let k : ℕ = j - n in
        let at : j ≡ n + k = omega arith in
        get_or-append_right a.out b.out j k 0 (omega (arith, a.size))
        ∙ b.bytes k (omega arith)
        ∙ ap₂ bit_xor (sym (ap s at ∙ same k (omega arith))) (get_or-drop n input j k 0 at)
  ];
}

pub restream :
    {m : ℕ} (s t : ℕ → ℕ) {input : List ℕ} {result : Option (List ℕ)}
    → ((j : ℕ) → j < m → s j ≡ t j)
    → Combined m s input result
    → Combined m t input result
restream s t {input} same c = record {
  out = c.out;
  returns = c.returns;
  size = c.size;
  bytes = λ j h. c.bytes j h ∙ ap (λ (b : ℕ). bit_xor b (get_or input j 0)) (same j h);
}

pub moved :
    {m n : ℕ} {s : ℕ → ℕ} {input : List ℕ} {r t : Option (List ℕ)}
    → m ≡ n
    → r ≡ t
    → Combined m s input t
    → Combined n s input r
moved {s = s} {input = input} e f c = subst₂ (λ (k : ℕ) x. Combined k s input x) e (sym f) c
