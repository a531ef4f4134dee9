-- ===== src/Prelude/Base64.antt =====
-- Base64 read back: a decoder, written from the alphabet and independent of `b64encode`, that gives
-- the bytes of a text that `b64encode` wrote.
use Prim.Native.Nat.{ℕ, zero, suc, ◌+◌, ◌-◌, ◌*◌, ◌/◌, ◌%◌, ◌<◌, compare, Ordering}
use Prim.Native.Char.{char, code, IsScalar, IsLt}
use Prim.Native.String.{String}
use archon_vibe.Prelude.{
  ◌≡◌, refl, sym, subst, ap, ==-iff, Bool, true, false, not, ◌&&◌, List, [], ◌∷◌, ◌++◌, arith, All,
  Bool-cases, inl, inr, leb, ltb, nat_eq, ◌==◌, if◌then◌else◌,
}
use archon_vibe.Prelude.Text.{utf8, utf8_char, digit64, char_at, b64encode}

-- The value of a digit: A-Z, a-z, 0-9, + and /.
abbrev pub value64 : ℕ → ℕ
value64 c =
    if leb 97 c
    then c - 71
    else if leb 65 c
    then c - 65
    else if leb 48 c
    then c + 4
    else if c == 43
    then 62
    else 63

-- Four digits are three bytes; `=` stands for a byte that is not there.
unfoldable pub b64decode : String → List ℕ
b64decode (String.◌∷◌ a (String.◌∷◌ b (String.◌∷◌ c (String.◌∷◌ d rest)))) =
    let first = value64 (code a) * 4 + value64 (code b) / 16 in
    let second = value64 (code b) % 16 * 16 + value64 (code c) / 4 in
    let third = value64 (code c) % 4 * 64 + value64 (code d) in
    let others = b64decode rest in
    if code c == 61
    then first ∷ []
    else if code d == 61
    then first ∷ second ∷ []
    else first ∷ second ∷ third ∷ others
b64decode _ = []

-- The test passes at every number below a bound.
unfoldable all_below : ℕ → (ℕ → Bool) → Bool
all_below zero p = true
all_below (suc n) p = p n && all_below n p

all_below_lem : (n k : ℕ) (p : ℕ → Bool) → all_below n p ≡ true → k < n → p k ≡ true
unfolding all_below
all_below_lem zero k p h l = absurd (ground (arith, l))
all_below_lem (suc n) k p h l = elim (Bool-cases (k == n)) [
  | inl same ↦ subst (λ j. p j ≡ true) (sym ((==-iff k n).0 same)) (ground (arith, h))
  | inr other ↦ all_below_lem n k p (ground (arith, h)) (ground (arith, l, other))
]

digits_are_read : all_below 64 (λ n. value64 (code (digit64 n)) == n) ≡ true
unfolding all_below digit64 char_at
digits_are_read = refl

digits_are_no_padding : all_below 64 (λ n. not (code (digit64 n) == 61)) ≡ true
unfolding all_below digit64 char_at
digits_are_no_padding = refl

not-true : (b : Bool) → not b ≡ true → b ≡ false
not-true b h = ground (arith, h)

cons_eq : (x y : ℕ) (xs ys : List ℕ) → x ≡ y → xs ≡ ys → x ∷ xs ≡ y ∷ ys
cons_eq x y xs ys p q i = p i ∷ q i

digit64_lem :
    (n : ℕ) → n < 64 → (value64 (code (digit64 n)) ≡ n) × ((code (digit64 n) == 61) ≡ false)
digit64_lem n l = (
  (==-iff (value64 (code (digit64 n))) n).0
      (all_below_lem 64 n (λ k. value64 (code (digit64 k)) == k) digits_are_read l),
  not-true (code (digit64 n) == 61)
      (all_below_lem 64 n (λ k. not (code (digit64 k) == 61)) digits_are_no_padding l),
)

IsLt-eq : (o : Ordering) → IsLt o → o ≡ Ordering.lt
IsLt-eq Ordering.lt h = refl
IsLt-eq Ordering.eq h = elim h [ ]
IsLt-eq Ordering.gt h = elim h [ ]

-- A code point is at most U+10FFFF.
IsScalar-lt : (n : ℕ) → IsScalar n → n < 1114112
IsScalar-lt n h = elim (Bool-cases (ltb 57343 n)) [
  | inr low ↦ ground (arith, low)
  | inl high ↦
      let past : compare n 55296 ≡ Ordering.gt = ground (arith, high) in
      let over : compare 57343 n ≡ Ordering.lt = ground (arith, high) in
      ground (arith, IsLt-eq (compare n 1114112) (rw over at (rw past at h)))
]

utf8_char-IsByte : (c : ℕ) → c < 1114112 → All (λ b. b < 256) (utf8_char c)
unfolding utf8_char
utf8_char-IsByte c l = ground (arith, l)

All-append :
    (xs ys : List ℕ) → All (λ b. b < 256) xs → All (λ b. b < 256) ys → All (λ b. b < 256) (xs ++ ys)
All-append [] ys h k = k
All-append (x ∷ xs) ys h k = (h.0, All-append xs ys h.1 k)

-- A text is encoded in bytes.
pub utf8-bytes : (s : String) → All (λ b. b < 256) (utf8 s)
unfolding utf8
utf8-bytes String.[] = tt
utf8-bytes (String.◌∷◌ (char n p) s) =
    All-append (utf8_char n) (utf8 s) (utf8_char-IsByte n (IsScalar-lt n p)) (utf8-bytes s)

-- What the encoder writes decodes to the bytes that it was given.
pub b64decode-b64encode :
    (bytes : List ℕ) → All (λ b. b < 256) bytes → b64decode (b64encode bytes) ≡ bytes
unfolding b64encode b64decode
b64decode-b64encode [] h = refl
b64decode-b64encode (a ∷ []) (ha, h) =
    let (x, px) = digit64_lem (a / 4) (ground (arith, ha)) in
    let (y, py) = digit64_lem (a % 4 * 16) (ground (arith, ha)) in
    rw x (rw y (ap (λ b. b ∷ []) (omega (arith, ha))))
b64decode-b64encode (a ∷ b ∷ []) (ha, hb) =
    let (x, px) = digit64_lem (a / 4) (ground (arith, ha)) in
    let (y, py) = digit64_lem (a % 4 * 16 + b / 16) (ground (arith, ha, hb.0)) in
    let (z, pz) = digit64_lem (b % 16 * 4) (ground (arith, hb.0)) in
    rw pz (
      rw x (
        rw y (
          rw z (
            cons_eq _ _ _ _ (omega (arith, ha, hb.0))
              (cons_eq _ _ _ _ (omega (arith, ha, hb.0)) refl)))))
b64decode-b64encode (a ∷ b ∷ c ∷ rest) (ha, hb) =
    let (x, px) = digit64_lem (a / 4) (ground (arith, ha)) in
    let (y, py) = digit64_lem (a % 4 * 16 + b / 16) (ground (arith, ha, hb.0)) in
    let (z, pz) = digit64_lem (b % 16 * 4 + c / 64) (ground (arith, hb.0, hb.1.0)) in
    let (t, pt) = digit64_lem (c % 64) (ground (arith, hb.1.0)) in
    rw pz (
      rw pt (
        rw x (
          rw y (
            rw z (
              rw t (
                cons_eq _ _ _ _ (omega (arith, ha, hb.0)) (
                  cons_eq _ _ _ _ (omega (arith, hb.0, hb.1.0)) (
                    cons_eq _ _ _ _ (omega (arith, hb.1.0))
                      (b64decode-b64encode rest hb.1.1)))))))))
