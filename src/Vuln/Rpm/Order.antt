-- ===== src/Vuln/Rpm/Order.antt =====
-- internal/vuln/rpm.go: the loop ends, and orders two components by their keys.
use defendsec.Prelude.{
  ℕ, zero, suc, ◌+◌, ◌≤◌, ◌<◌, ◌≡◌, refl, sym, ◌∙◌, ap, Bool, true, false, ◌&&◌, List, [], ◌∷◌,
  length, arith, if◌then◌else◌, Bool-cases, inl, inr, Option, some,
}
use defendsec.Prelude.Int.{ℤ, sign, of_sign}
use defendsec.Prelude.Cmp.{lex, lex-IsCmp}
use defendsec.Prelude.Text.{Bytes, is_empty, eq_bytes, eq_bytes_iff}
use defendsec.Vuln.Dpkg.{Scan, decided, reached}
use defendsec.Vuln.Rpm.{skip_separators, after_segment, round_from, ending, cmp_loop, rpm_ver_cmp}
use defendsec.Vuln.Rpm.Key.{
  after_token, key, verdict, Ready, skip_separators-Ready, verdict_round, round_reached,
}

length-skip_separators : (s : Bytes) → length (skip_separators s) ≤ length s
unfolding skip_separators
length-skip_separators [] = omega arith
length-skip_separators (c ∷ s) = ground (arith, length-skip_separators s)

length-after_segment : (num : Bool) (s : Bytes) → length (after_segment num s) ≤ length s
unfolding after_segment
length-after_segment num [] = omega arith
length-after_segment num (c ∷ s) = ground (arith, length-after_segment num s)

length-after_token : (c : ℕ) (s : Bytes) → Ready (c ∷ s) → length (after_token (c ∷ s)) ≤ length s
unfolding after_token after_segment
length-after_token c s h = ground (arith, length-after_segment true s, length-after_segment false s)

abbrev next : Bytes → Bytes
next s = after_token (skip_separators s)

next_of : (n : ℕ) (s : Bytes) → Ready s → length s < suc n → 0 < n → length (after_token s) < n
unfolding after_token
next_of n [] r h p = p
next_of n (c ∷ s) r h p = omega (arith, length-after_token c s r)

next-fits : (n : ℕ) (s : Bytes) → length s < suc n → 0 < n → length (next s) < n
next-fits n s h p =
    next_of n (skip_separators s) (skip_separators-Ready s)
      (omega (arith, length-skip_separators s)) p

abbrev pub Ordered : Option ℤ → List ℕ → List ℕ → Type 0
Ordered r ka kb = r ≡ some (of_sign (lex ka kb))

abbrev proceed : ℕ → Scan → Option ℤ
proceed f r = elim r [ decided d ↦ some d | reached a b ↦ cmp_loop f a b ]

proceed-Ordered :
    (f : ℕ) (r : Scan) (a b : Bytes) (ka kb : List ℕ)
    → ((a' b' : Bytes) → r ≡ reached a' b' → (a' ≡ a) × (b' ≡ b))
    → ((d : ℤ) → r ≡ decided d → d ≡ of_sign (sign d))
    → Ordered (cmp_loop f a b) (key f a) (key f b)
    → verdict r (key f a) (key f b) ≡ lex ka kb
    → Ordered (proceed f r) ka kb
proceed-Ordered f (decided d) a b ka kb e u ih h = ap some (u d refl ∙ ap of_sign h)
proceed-Ordered f (reached a' b') a b ka kb e u ih h =
    rw ((e a' b' refl).0, (e a' b' refl).1) (ih ∙ ap (λ o. some (of_sign o)) h)

round_unit : (a b : Bytes) (d : ℤ) → round_from a b ≡ decided d → d ≡ of_sign (sign d)
unfolding round_from
round_unit [] [] d h = ground arith
round_unit [] (y ∷ b) d h = ground arith
round_unit (x ∷ a) [] d h = ground arith
round_unit (x ∷ a) (y ∷ b) d h = ground arith

round-Ordered :
    (n : ℕ) (a b : Bytes)
    → Ordered (cmp_loop n (next a) (next b)) (key n (next a)) (key n (next b))
    → Ordered
        (proceed n (round_from (skip_separators a) (skip_separators b)))
        (key (suc n) a)
        (key (suc n) b)
unfolding key
round-Ordered n a b ih =
    proceed-Ordered n (round_from (skip_separators a) (skip_separators b)) (next a) (next b)
      (key (suc n) a) (key (suc n) b) (round_reached (skip_separators a) (skip_separators b))
      (round_unit (skip_separators a) (skip_separators b)) ih
      (verdict_round (skip_separators a) (skip_separators b) (key n (next a)) (key n (next b))
        (skip_separators-Ready a) (skip_separators-Ready b))

-- With fuel above both lengths the loop ends, and its result is the order of the keys.
cmp_loop-Ordered :
    (n : ℕ) (a b : Bytes)
    → length a < n
    → length b < n
    → Ordered (cmp_loop n a b) (key n a) (key n b)
unfolding cmp_loop
cmp_loop-Ordered zero a b la lb = elim la [ ]
cmp_loop-Ordered (suc n) [] [] la lb =
    ap (λ o. some (of_sign o)) (sym (lex-IsCmp.refl_cmp (key (suc n) [])))
cmp_loop-Ordered (suc n) [] (y ∷ b) la lb = round-Ordered n [] (y ∷ b) (
    cmp_loop-Ordered n (next []) (next (y ∷ b)) (next-fits n [] la (omega arith))
      (next-fits n (y ∷ b) lb (omega arith)))
cmp_loop-Ordered (suc n) (x ∷ a) b la lb = round-Ordered n (x ∷ a) b (
    cmp_loop-Ordered n (next (x ∷ a)) (next b) (next-fits n (x ∷ a) la (omega arith))
      (next-fits n b lb (omega arith)))

under_test :
    (n m : ℕ) (d e : ℤ) (t : Bool) (r : Scan)
    → ((a b : Bytes) → cmp_loop n a b ≡ some d → cmp_loop m a b ≡ some d)
    → (if t then some e else proceed n r) ≡ some d
    → (if t then some e else proceed m r) ≡ some d
under_test n m d e true r ih h = h
under_test n m d e false (decided x) ih h = h
under_test n m d e false (reached a' b') ih h = ih a' b' h

-- More fuel changes no result.
cmp_loop_mono :
    (n m : ℕ) (d : ℤ) (a b : Bytes) → n ≤ m → cmp_loop n a b ≡ some d → cmp_loop m a b ≡ some d
unfolding cmp_loop
cmp_loop_mono zero m d a b l h = cc
cmp_loop_mono (suc n) zero d a b l h = absurd (omega arith)
cmp_loop_mono (suc n) (suc m) d a b l h =
    under_test n m d (ending a b) (is_empty a && is_empty b)
      (round_from (skip_separators a) (skip_separators b))
      (λ a' b'. cmp_loop_mono n m d a' b' (omega arith)) h

-- Any two components are compared in the order of their keys, whatever number of rounds `n` above
-- both lengths the keys are taken to; in particular the loop ends.
pub rpm_ver_cmp-key :
    (n : ℕ) (a b : Bytes)
    → length a < n
    → length b < n
    → rpm_ver_cmp a b ≡ some (of_sign (lex (key n a) (key n b)))
unfolding rpm_ver_cmp
rpm_ver_cmp-key n a b la lb = elim (Bool-cases (eq_bytes a b)) [
  | inl same ↦ rw same (
      rw ((eq_bytes_iff a b).0 same)
        (ap (λ o. some (of_sign o)) (sym (lex-IsCmp.refl_cmp (key n b)))))
  | inr other ↦
      let m : ℕ = length a + length b + 1 in
      let e = cmp_loop-Ordered m a b (omega arith) (omega arith) in
      let e' = cmp_loop-Ordered n a b la lb in
      let f = cmp_loop_mono m (m + n) (of_sign (lex (key m a) (key m b))) a b (omega arith) e in
      let f' = cmp_loop_mono n (m + n) (of_sign (lex (key n a) (key n b))) a b (omega arith) e' in
      rw other (e ∙ sym f ∙ f')
]
