-- ===== src/Vuln/Dpkg/Order.antt =====
-- internal/vuln/dpkg.go: the outer loop ends, and orders two components by their keys.
use defendsec.Prelude.{
  ℕ, zero, suc, ◌+◌, ◌≤◌, ◌<◌, ◌≡◌, refl, sym, ◌∙◌, Bool, true, false, ◌&&◌, List, [], ◌∷◌, length,
  arith, if◌then◌else◌, Option, none, some,
}
use defendsec.Prelude.Int.{ℤ, pos, sign}
use defendsec.Prelude.Cmp.{lex, lex-IsCmp}
use defendsec.Prelude.Text.{Bytes, is_empty}
use defendsec.Vuln.Dpkg.{
  byte_at, Scan, decided, reached, skip_zeros, round, cmp_loop, dpkg_ver_rev_cmp,
}
use defendsec.Vuln.Dpkg.Key.{Agrees, after_run, after_digits, key}
use defendsec.Vuln.Dpkg.Digits.{at_digits, round_key, round-Agrees}

-- No byte is the terminator of C.
abbrev pub NulFree : Bytes → Type 0
NulFree [] = Unit
NulFree (c ∷ s) = (0 < c) × NulFree s

after_run-NulFree : (s : Bytes) → NulFree s → NulFree (after_run s)
unfolding after_run
after_run-NulFree [] h = h
after_run-NulFree (c ∷ s) h = ground (arith, after_run-NulFree s h.1)

skip_zeros-NulFree : (s : Bytes) → NulFree s → NulFree (skip_zeros s)
unfolding skip_zeros
skip_zeros-NulFree [] h = h
skip_zeros-NulFree (c ∷ s) h = ground (arith, skip_zeros-NulFree s h.1)

after_digits-NulFree : (s : Bytes) → NulFree s → NulFree (after_digits s)
unfolding after_digits
after_digits-NulFree [] h = h
after_digits-NulFree (c ∷ s) h = ground (arith, after_digits-NulFree s h.1)

length-after_run : (s : Bytes) → length (after_run s) ≤ length s
unfolding after_run
length-after_run [] = omega arith
length-after_run (c ∷ s) = ground (arith, length-after_run s)

length-skip_zeros : (s : Bytes) → length (skip_zeros s) ≤ length s
unfolding skip_zeros
length-skip_zeros [] = omega arith
length-skip_zeros (c ∷ s) = ground (arith, length-skip_zeros s)

length-after_digits : (s : Bytes) → length (after_digits s) ≤ length s
unfolding after_digits
length-after_digits [] = omega arith
length-after_digits (c ∷ s) = ground (arith, length-after_digits s)

abbrev pub next : Bytes → Bytes
next s = after_digits (at_digits s)

pub next-NulFree : (s : Bytes) → NulFree s → NulFree (next s)
next-NulFree s h = after_digits-NulFree _ (skip_zeros-NulFree _ (after_run-NulFree s h))

-- A round takes at least a byte from a side that has one.
length-next : (c : ℕ) (s : Bytes) → 0 < c → length (next (c ∷ s)) ≤ length s
unfolding after_run skip_zeros after_digits
length-next c s h = ground (
  arith,
  length-after_digits (at_digits s),
  length-skip_zeros (after_run s),
  length-after_run s,
  length-after_digits (skip_zeros s),
  length-skip_zeros s,
  length-after_digits s,
)

abbrev pub Ordered : Option ℤ → List ℕ → List ℕ → Type 0
Ordered r ka kb = (d : ℤ) × (r ≡ some d) × (sign d ≡ lex ka kb)

abbrev proceed : ℕ → Scan → Option ℤ
proceed f r = elim r [ decided d ↦ some d | reached a b ↦ cmp_loop f a b ]

proceed-Ordered :
    (f : ℕ) (r : Scan) (a b : Bytes) (ka kb : List ℕ → List ℕ)
    → Agrees r (next a) (next b) (λ ra rb. lex (ka ra) (kb rb))
    → Ordered (cmp_loop f (next a) (next b)) (key f (next a)) (key f (next b))
    → Ordered (proceed f r) (ka (key f (next a))) (kb (key f (next b)))
proceed-Ordered f (decided d) a b ka kb h ih = (d, refl, sym (h _ _))
proceed-Ordered f (reached a' b') a b ka kb (ea, eb, h) (d, e, s) =
    (d, rw (ea, eb) e, s ∙ sym (h _ _))

next-fits : (n : ℕ) (s : Bytes) → NulFree s → length s < suc n → 0 < length s → length (next s) < n
next-fits n [] h l p = absurd (omega arith)
next-fits n (c ∷ s) h l p = omega (arith, length-next c s h.0)

round-Ordered :
    (n : ℕ) (a b : Bytes)
    → Ordered (cmp_loop n (next a) (next b)) (key n (next a)) (key n (next b))
    → Ordered (proceed n (round a b)) (key (suc n) a) (key (suc n) b)
unfolding key
round-Ordered n a b ih =
    proceed-Ordered n (round a b) a b (round_key a) (round_key b) (round-Agrees a b) ih

next-next-fits :
    (n : ℕ) (a b : Bytes)
    → NulFree a
    → length a < suc n
    → 0 < length a + length b
    → length b < suc n
    → length (next a) < n
unfolding after_run skip_zeros after_digits
next-next-fits n [] b h l p q = omega arith
next-next-fits n (c ∷ s) b h l p q = next-fits n (c ∷ s) h l (omega arith)

-- With fuel above both lengths the loop ends, and its result is the order of the keys.
pub cmp_loop-Ordered :
    (n : ℕ) (a b : Bytes)
    → NulFree a
    → NulFree b
    → length a < n
    → length b < n
    → Ordered (cmp_loop n a b) (key n a) (key n b)
unfolding cmp_loop
cmp_loop-Ordered zero a b ha hb la lb = elim la [ ]
cmp_loop-Ordered (suc n) [] [] ha hb la lb =
    (pos 0, refl, sym (lex-IsCmp.refl_cmp (key (suc n) [])))
cmp_loop-Ordered (suc n) [] (y ∷ b) ha hb la lb = round-Ordered n [] (y ∷ b) (
    cmp_loop-Ordered n (next []) (next (y ∷ b)) (next-NulFree [] ha) (next-NulFree (y ∷ b) hb)
      (next-next-fits n [] (y ∷ b) ha la (omega arith) lb)
      (next-next-fits n (y ∷ b) [] hb lb (omega arith) la))
cmp_loop-Ordered (suc n) (x ∷ a) b ha hb la lb = round-Ordered n (x ∷ a) b (
    cmp_loop-Ordered n (next (x ∷ a)) (next b) (next-NulFree (x ∷ a) ha) (next-NulFree b hb)
      (next-next-fits n (x ∷ a) b ha la (omega arith) lb)
      (next-next-fits n b (x ∷ a) hb lb (omega arith) la))

under_test :
    (n m : ℕ) (d : ℤ) (t : Bool) (r : Scan)
    → ((a b : Bytes) → cmp_loop n a b ≡ some d → cmp_loop m a b ≡ some d)
    → (if t then some (pos 0) else proceed n r) ≡ some d
    → (if t then some (pos 0) else proceed m r) ≡ some d
under_test n m d true r ih e = e
under_test n m d false (decided x) ih e = e
under_test n m d false (reached a' b') ih e = ih a' b' e

-- More fuel changes no result.
cmp_loop_mono :
    (n m : ℕ) (d : ℤ) (a b : Bytes) → n ≤ m → cmp_loop n a b ≡ some d → cmp_loop m a b ≡ some d
unfolding cmp_loop
cmp_loop_mono zero m d a b l h = cc
cmp_loop_mono (suc n) zero d a b l h = absurd (omega arith)
cmp_loop_mono (suc n) (suc m) d a b l h =
    under_test n m d (is_empty a && is_empty b) (round a b)
      (λ a' b'. cmp_loop_mono n m d a' b' (omega arith)) h

-- Two components without a NUL byte are compared in the order of their keys, whatever number of
-- rounds `n` above both lengths the keys are taken to; in particular the loop ends.
pub dpkg_ver_rev_cmp-key :
    (n : ℕ) (a b : Bytes)
    → NulFree a
    → NulFree b
    → length a < n
    → length b < n
    → (d : ℤ) × (dpkg_ver_rev_cmp a b ≡ some d) × (sign d ≡ lex (key n a) (key n b))
unfolding dpkg_ver_rev_cmp
dpkg_ver_rev_cmp-key n a b ha hb la lb =
    let (d, e, s) =
      cmp_loop-Ordered (length a + length b + 1) a b ha hb (omega arith) (omega arith) in
    let (d', e', s') = cmp_loop-Ordered n a b ha hb la lb in
    let big : ℕ = length a + length b + 1 + n in
    let f = cmp_loop_mono (length a + length b + 1) big d a b (omega arith) e in
    let f' = cmp_loop_mono n big d' a b (omega arith) e' in (d', e ∙ sym f ∙ f', s')

-- A component that has come to a NUL byte, against one that is over or at a NUL byte too, is never
-- decided: however many rounds are run, the loop is still at the same place.
pub cmp_loop-nul : (n : ℕ) (s b : Bytes) → byte_at b ≡ 0 → cmp_loop n (0 ∷ s) b ≡ none
unfolding cmp_loop
cmp_loop-nul zero s b h = refl
cmp_loop-nul (suc n) s [] h = cmp_loop-nul n s [] h
cmp_loop-nul (suc n) s (zero ∷ b) h = cmp_loop-nul n s (zero ∷ b) h
cmp_loop-nul (suc n) s (suc c ∷ b) h = absurd (omega arith)
