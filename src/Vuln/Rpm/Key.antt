-- ===== src/Vuln/Rpm/Key.antt =====
-- internal/vuln/rpm.go: the key of a version component, by which the loop orders it. A token of the
-- key is 0 for `~`, 1 for the end, 2 for `^`, 3 and the letters for a segment of letters, and 4, the
-- number of digits without leading zeros and the digits for a number.
use defendsec.Prelude.{
  ℕ, zero, suc, ◌≡◌, refl, true, false, ◌||◌, List, [], ◌∷◌, ◌++◌, length, ◌==◌, arith,
  if◌then◌else◌, compare, Ordering, ◌<◌,
}
use defendsec.Prelude.Int.{sign}
use defendsec.Prelude.Cmp.{or_else, lex}
use defendsec.Prelude.Text.{Bytes, is_digit}
use defendsec.Vuln.Dpkg.{Scan, decided, reached}
use defendsec.Vuln.Rpm.{
  is_alnum, skip_separators, segment, after_segment, trim_zeros, compare_text, compare_numbers,
  compare_segments, round_from,
}

unfoldable pub token_key : Bytes → List ℕ → List ℕ
unfolding segment trim_zeros
token_key [] rest = 1 ∷ []
token_key (c ∷ s) rest =
    if c == b'~'
    then 0 ∷ rest
    else (if c == b'^'
        then 2 ∷ rest
        else (if is_digit c
            then (let d = trim_zeros (segment true (c ∷ s)) in 4 ∷ length d ∷ (d ++ rest))
            else 3 ∷ (segment false (c ∷ s) ++ 0 ∷ rest)))

unfoldable pub after_token : Bytes → Bytes
unfolding after_segment
after_token [] = []
after_token (c ∷ s) = if c == b'~' || c == b'^' then s else after_segment (is_digit c) (c ∷ s)

unfoldable pub key : ℕ → Bytes → List ℕ
unfolding token_key after_token skip_separators
key zero s = []
key (suc n) s = let t = skip_separators s in token_key t (key n (after_token t))

-- What a scan says of two sides whose keys go on as `ra` and `rb`.
abbrev pub verdict : Scan → List ℕ → List ℕ → Ordering
verdict (decided d) ra rb = sign d
verdict (reached a b) ra rb = lex ra rb

compare-suc : (m n : ℕ) → compare (suc m) (suc n) ≡ compare m n
compare-suc m n = ground arith

-- Digits after their number.
lex-digits :
    (a b ra rb : List ℕ)
    → or_else (compare (length a) (length b)) (lex (a ++ ra) (b ++ rb))
      ≡ or_else (compare (length a) (length b)) (or_else (lex a b) (lex ra rb))
lex-digits [] [] ra rb = refl
lex-digits [] (y ∷ b) ra rb = ground arith
lex-digits (x ∷ a) [] ra rb = ground arith
lex-digits (x ∷ a) (y ∷ b) ra rb =
    ground (arith, lex-digits a b ra rb, compare-suc (length a) (length b))

abbrev AllPos : List ℕ → Type 0
AllPos [] = Unit
AllPos (x ∷ xs) = (0 < x) × AllPos xs

-- Letters before a zero.
lex-letters :
    (a b ra rb : List ℕ)
    → AllPos a
    → AllPos b
    → lex (a ++ 0 ∷ ra) (b ++ 0 ∷ rb) ≡ or_else (lex a b) (lex ra rb)
lex-letters [] [] ra rb ha hb = refl
lex-letters [] (y ∷ b) ra rb ha hb = ground arith
lex-letters (x ∷ a) [] ra rb ha hb = ground arith
lex-letters (x ∷ a) (y ∷ b) ra rb ha hb = ground (arith, lex-letters a b ra rb ha.1 hb.1)

segment-AllPos : (s : Bytes) → AllPos (segment false s)
unfolding segment
segment-AllPos [] = tt
segment-AllPos (c ∷ s) = ground (arith, segment-AllPos s)

verdict_text :
    (a b a' b' : Bytes) (ra rb : List ℕ)
    → verdict (compare_text a b (reached a' b')) ra rb ≡ or_else (lex a b) (lex ra rb)
verdict_text a b a' b' ra rb = ground arith

verdict_numbers :
    (a b a' b' : Bytes) (ra rb : List ℕ)
    → verdict (compare_numbers a b (reached a' b')) ra rb
      ≡ or_else (compare (length a) (length b)) (or_else (lex a b) (lex ra rb))
verdict_numbers a b a' b' ra rb = ground arith

-- A marker, a letter or a digit: what a token starts with.
abbrev pub IsHead : ℕ → Type 0
IsHead c = (is_alnum c || (c == b'~' || c == b'^')) ≡ true

verdict_segments :
    (x y : ℕ) (a b : Bytes) (ra rb : List ℕ)
    → is_alnum x ≡ true
    → is_alnum y ≡ true
    → verdict (compare_segments (x ∷ a) (y ∷ b)) ra rb
      ≡ lex (token_key (x ∷ a) ra) (token_key (y ∷ b) rb)
unfolding compare_segments token_key
verdict_segments x y a b ra rb h k = ground (
  arith,
  lex-letters (segment false (x ∷ a)) (segment false (y ∷ b)) ra rb (segment-AllPos (x ∷ a))
      (segment-AllPos (y ∷ b)),
  lex-digits (trim_zeros (segment true (x ∷ a))) (trim_zeros (segment true (y ∷ b))) ra rb,
)

-- The end, or a byte that starts a token.
abbrev pub Ready : Bytes → Type 0
Ready [] = Unit
Ready (c ∷ s) = IsHead c

pub skip_separators-Ready : (s : Bytes) → Ready (skip_separators s)
unfolding skip_separators
skip_separators-Ready [] = tt
skip_separators-Ready (c ∷ s) = ground (arith, skip_separators-Ready s)

-- The body of the loop decides as the tokens do.
pub verdict_round :
    (a b : Bytes) (ra rb : List ℕ)
    → Ready a
    → Ready b
    → verdict (round_from a b) ra rb ≡ lex (token_key a ra) (token_key b rb)
unfolding round_from token_key
verdict_round [] [] ra rb h k = refl
verdict_round [] (y ∷ b) ra rb h k = ground arith
verdict_round (x ∷ a) [] ra rb h k = ground arith
verdict_round (x ∷ a) (y ∷ b) ra rb h k = ground (arith, verdict_segments x y a b ra rb)

-- Where the loop goes on, it is behind both tokens.
pub round_reached :
    (a b a' b' : Bytes)
    → round_from a b ≡ reached a' b'
    → (a' ≡ after_token a) × (b' ≡ after_token b)
unfolding round_from after_token
round_reached [] [] a' b' h = cc
round_reached [] (y ∷ b) a' b' h = ground arith
round_reached (x ∷ a) [] a' b' h = ground arith
round_reached (x ∷ a) (y ∷ b) a' b' h = ground arith
