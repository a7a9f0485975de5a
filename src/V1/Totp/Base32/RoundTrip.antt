-- ===== src/V1/Totp/Base32/RoundTrip.antt =====
-- The text of `bytesToBase32` as a number in base 32, and the way back to the bytes.
use secure_mcp.Shared.{
  ℕ, zero, suc, ◌+◌, ◌*◌, ◌/◌, ◌%◌, ◌≤◌, ◌<◌, ◌≡◌, refl, sym, ap, ◌∙◌, inl, inr, Bool, true, false,
  ◌&&◌, List, [], ◌∷◌, ◌++◌, arith, ◌==◌, if◌then◌else◌, ==_iff, Bool-cases, and_left, and_right,
  length, All, bit_and_31, bit_or_byte, append-nil, append_assoc, subst,
}
use Prim.Native.Nat.{◌^◌, bit_and, bit_or}
use secure_mcp.V1.Totp.Base32.{emit, encode_from, shift_left, shift_right, base32_chars, char_at}

-- The place of a character in the alphabet.
abbrev index_from : ℕ → List ℕ → ℕ → ℕ
index_from i [] c = i
index_from i (d ∷ ds) c = if d == c then i else index_from (i + 1) ds c

abbrev pub index_of : ℕ → ℕ
index_of = index_from 0 base32_chars

-- Numbers in base 32 and in base 256, the highest digit first.
abbrev pub value32 : ℕ → List ℕ → ℕ
value32 acc [] = acc
value32 acc (c ∷ cs) = value32 (acc * 32 + index_of c) cs

abbrev pub value256 : ℕ → List ℕ → ℕ
value256 acc [] = acc
value256 acc (b ∷ bs) = value256 (acc * 256 + b) bs

-- Every number below 32 has a character, and it is read back as the number.
abbrev is_symbol : ℕ → List ℕ → Bool
is_symbol i (c ∷ []) = index_of c == i
is_symbol i _ = false

-- A test of each of the first numbers, and what it says of one of them.
abbrev holds_below : (ℕ → Bool) → ℕ → Bool
holds_below test zero = true
holds_below test (suc n) = holds_below test n && test n

holds_below_lem : (test : ℕ → Bool) (n i : ℕ) → i < n → holds_below test n ≡ true → test i ≡ true
holds_below_lem test zero i small h = absurd (omega arith)
holds_below_lem test (suc n) i small h =
    let earlier = holds_below_lem test n i in
    let here : test n ≡ true = and_right (holds_below test n) (test n) h in
    elim (Bool-cases (i == n)) [
      | inl e ↦ subst (λ x. test x ≡ true) (sym ((==_iff i n).0 e)) here
      | inr e ↦ earlier (ground (arith, e, small)) (and_left (holds_below test n) (test n) h)
    ]

symbols : holds_below (λ i. is_symbol i (char_at i)) 32 ≡ true
symbols = refl

symbol_read :
    (i acc : ℕ) (s rest : List ℕ)
    → is_symbol i s ≡ true
    → (value32 acc (s ++ rest) ≡ value32 (acc * 32 + i) rest)
      × (length (s ++ rest) ≡ suc (length rest))
symbol_read i acc [] rest h = absurd (cc)
symbol_read i acc (c ∷ []) rest h =
    (ap (λ x. value32 (acc * 32 + x) rest) ((==_iff (index_of c) i).0 h), refl)
symbol_read i acc (c ∷ d ∷ s) rest h = absurd (cc)

-- The character of a masked number, in front of a text.
masked_read :
    (x acc : ℕ) (rest : List ℕ)
    → (value32 acc (char_at (bit_and x 31) ++ rest) ≡ value32 (acc * 32 + x % 32) rest)
      × (length (char_at (bit_and x 31) ++ rest) ≡ suc (length rest))
masked_read x acc rest = rw (bit_and_31 x) (
    symbol_read (x % 32) acc (char_at (x % 32)) rest
      (holds_below_lem (λ i. is_symbol i (char_at i)) 32 (x % 32) (omega arith) symbols))

-- Five bits of the buffer: the sign is above them.
shift_right_mod : (x n : ℕ) → n ≤ 7 → shift_right x n % 32 ≡ x / 2 ^ n % 32
shift_right_mod x zero h = ground arith
shift_right_mod x (suc zero) h = ground arith
shift_right_mod x (suc (suc zero)) h = ground arith
shift_right_mod x (suc (suc (suc zero))) h = ground arith
shift_right_mod x (suc (suc (suc (suc zero)))) h = ground arith
shift_right_mod x (suc (suc (suc (suc (suc zero))))) h = ground arith
shift_right_mod x (suc (suc (suc (suc (suc (suc zero)))))) h = ground arith
shift_right_mod x (suc (suc (suc (suc (suc (suc (suc zero))))))) h = ground arith
shift_right_mod x (suc (suc (suc (suc (suc (suc (suc (suc n)))))))) h = absurd (omega arith)

-- The buffer after a byte: the bits that count are those of the number so far.
buffer_byte : (buffer b : ℕ) → b < 256 → bit_or (shift_left buffer 8) b ≡ buffer * 256 % 2 ^ 32 + b
buffer_byte buffer b h =
    ap (λ x. bit_or x b) (omega arith) ∙ bit_or_byte (buffer % 2 ^ 24) b h ∙ omega arith

-- A text that stands for a number of `n` bits, with zero bits after it up to a multiple of five.
pub record Reads (v n acc : ℕ) (text : List ℕ) : Type 0 where
  pub pad : ℕ
  pub small : pad < 5
  pub read : value32 acc text ≡ v * 2 ^ pad
  pub sized : 5 * length text ≡ n + pad

emitted :
    (x n acc v bits : ℕ) (rest : List ℕ)
    → n ≤ 7
    → Reads v bits (acc * 32 + x / 2 ^ n % 32) rest
    → Reads v (bits + 5) acc (char_at (bit_and (shift_right x n) 31) ++ rest)
emitted x n acc v bits rest h r =
    let (reads, longer) = masked_read (shift_right x n) acc rest in
    record {
      pad = r.pad;
      small = r.small;
      read = reads ∙ ap (λ i. value32 (acc * 32 + i) rest) (shift_right_mod x n h) ∙ r.read;
      sized = omega (arith, longer, r.sized);
    }

last_read :
    (x acc k : ℕ)
    → k < 5
    → (value32 acc (char_at (bit_and (shift_left x k) 31)) ≡ acc * 32 + shift_left x k % 32)
      × (length (char_at (bit_and (shift_left x k) 31)) ≡ 1)
last_read x acc k h =
    subst (λ t. (value32 acc t ≡ acc * 32 + shift_left x k % 32) × (length t ≡ 1)) (append-nil _)
      (masked_read (shift_left x k) acc [])

regrouped :
    (v w n m acc : ℕ) (text text' : List ℕ)
    → v ≡ w
    → n ≡ m
    → text ≡ text'
    → Reads v n acc text
    → Reads w m acc text'
regrouped v w n m acc text text' e f g r = subst (Reads w m acc) g (record {
  pad = r.pad;
  small = r.small;
  read = r.read ∙ ap (λ x. x * 2 ^ r.pad) e;
  sized = omega (arith, r.sized, f);
})

abbrev symbol : ℕ → ℕ → List ℕ
symbol x n = char_at (bit_and (shift_right x n) 31)

one_more : (s rest : List ℕ) → s ++ rest ≡ (s ++ []) ++ rest
one_more s rest = ap (λ x. x ++ rest) (sym (append-nil s))

two_more : (s t rest : List ℕ) → s ++ (t ++ rest) ≡ (s ++ (t ++ [])) ++ rest
two_more s t rest = ap (λ x. s ++ x) (one_more t rest) ∙ sym (append_assoc s (t ++ []) rest)

-- What the encoder writes from a buffer on stands for the number so far and the bytes to come.
pub encode-Reads :
    (buffer bits acc : ℕ) (bs : List ℕ)
    → bits < 5
    → All (λ b. b < 256) bs
    → Reads
        (value256 (acc * 2 ^ bits + buffer % 2 ^ bits) bs)
        (bits + 8 * length bs)
        acc
        (encode_from buffer bits bs)
unfolding encode_from emit
encode-Reads buffer zero acc [] h a = record {
  pad = 0;
  small = omega arith;
  read = omega arith;
  sized = omega arith;
}
encode-Reads buffer (suc zero) acc [] h a =
    let (r, l) = last_read buffer acc 4 (omega arith) in
    record { pad = 4; small = omega arith; read = omega (arith, r); sized = omega (arith, l) }
encode-Reads buffer (suc (suc zero)) acc [] h a =
    let (r, l) = last_read buffer acc 3 (omega arith) in
    record { pad = 3; small = omega arith; read = omega (arith, r); sized = omega (arith, l) }
encode-Reads buffer (suc (suc (suc zero))) acc [] h a =
    let (r, l) = last_read buffer acc 2 (omega arith) in
    record { pad = 2; small = omega arith; read = omega (arith, r); sized = omega (arith, l) }
encode-Reads buffer (suc (suc (suc (suc zero)))) acc [] h a =
    let (r, l) = last_read buffer acc 1 (omega arith) in
    record { pad = 1; small = omega arith; read = omega (arith, r); sized = omega (arith, l) }
encode-Reads buffer zero acc (b ∷ bs) h (byte, a) =
    let x = bit_or (shift_left buffer 8) b in
    let e = buffer_byte buffer b byte in
    let r = encode-Reads x 3 (acc * 32 + x / 2 ^ 3 % 32) bs (omega arith) a in
    regrouped _ _ _ _ acc _ _ (ap (λ v. value256 v bs) (omega (arith, e))) (omega arith)
      (one_more (symbol x 3) (encode_from x 3 bs)) (emitted x 3 acc _ _ _ (omega arith) r)
encode-Reads buffer (suc zero) acc (b ∷ bs) h (byte, a) =
    let x = bit_or (shift_left buffer 8) b in
    let e = buffer_byte buffer b byte in
    let r = encode-Reads x 4 (acc * 32 + x / 2 ^ 4 % 32) bs (omega arith) a in
    regrouped _ _ _ _ acc _ _ (ap (λ v. value256 v bs) (omega (arith, e))) (omega arith)
      (one_more (symbol x 4) (encode_from x 4 bs)) (emitted x 4 acc _ _ _ (omega arith) r)
encode-Reads buffer (suc (suc zero)) acc (b ∷ bs) h (byte, a) =
    let x = bit_or (shift_left buffer 8) b in
    let e = buffer_byte buffer b byte in
    let first = acc * 32 + x / 2 ^ 5 % 32 in
    let r = encode-Reads x 0 (first * 32 + x / 2 ^ 0 % 32) bs (omega arith) a in
    regrouped _ _ _ _ acc _ _ (ap (λ v. value256 v bs) (omega (arith, e))) (omega arith)
      (two_more (symbol x 5) (symbol x 0) (encode_from x 0 bs))
      (emitted x 5 acc _ _ _ (omega arith) (emitted x 0 first _ _ _ (omega arith) r))
encode-Reads buffer (suc (suc (suc zero))) acc (b ∷ bs) h (byte, a) =
    let x = bit_or (shift_left buffer 8) b in
    let e = buffer_byte buffer b byte in
    let first = acc * 32 + x / 2 ^ 6 % 32 in
    let r = encode-Reads x 1 (first * 32 + x / 2 ^ 1 % 32) bs (omega arith) a in
    regrouped _ _ _ _ acc _ _ (ap (λ v. value256 v bs) (omega (arith, e))) (omega arith)
      (two_more (symbol x 6) (symbol x 1) (encode_from x 1 bs))
      (emitted x 6 acc _ _ _ (omega arith) (emitted x 1 first _ _ _ (omega arith) r))
encode-Reads buffer (suc (suc (suc (suc zero)))) acc (b ∷ bs) h (byte, a) =
    let x = bit_or (shift_left buffer 8) b in
    let e = buffer_byte buffer b byte in
    let first = acc * 32 + x / 2 ^ 7 % 32 in
    let r = encode-Reads x 2 (first * 32 + x / 2 ^ 2 % 32) bs (omega arith) a in
    regrouped _ _ _ _ acc _ _ (ap (λ v. value256 v bs) (omega (arith, e))) (omega arith)
      (two_more (symbol x 7) (symbol x 2) (encode_from x 2 bs))
      (emitted x 7 acc _ _ _ (omega arith) (emitted x 2 first _ _ _ (omega arith) r))
encode-Reads buffer (suc (suc (suc (suc (suc n))))) acc bs h a = absurd (omega arith)
