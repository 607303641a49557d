-- ===== src/Vuln/Dpkg/Parts.antt =====
-- internal/vuln: the parts into which a version text is split are parts of that text.
use defendsec.Prelude.{
  ℕ, ◌≤◌, Bool, true, false, [], ◌∷◌, length, arith, if◌then◌else◌, Option, none, some, ◌==◌,
}
use defendsec.Prelude.Int.{ℤ, pos, negsuc}
use defendsec.Prelude.Text.{
  Bytes, trim_left, trim_right, trim_space, split_first, split_last, keep, grow, atoi, is_empty,
}
use defendsec.Vuln.Dpkg.{with_epoch}
use defendsec.Vuln.Dpkg.Order.{NulFree}

-- `s` is no longer than `t`, and free of NUL bytes if `t` is.
abbrev pub Within : Bytes → Bytes → Type 0
Within s t = (length s ≤ length t) × (NulFree t → NulFree s)

trim_left-Within : (s : Bytes) → Within (trim_left s) s
unfolding trim_left
trim_left-Within [] = (omega arith, λ h. h)
trim_left-Within (c ∷ s) =
    (ground (arith, (trim_left-Within s).0), λ h. ground (arith, (trim_left-Within s).1 h.1))

keep-Within : (c : ℕ) (s t : Bytes) → Within s t → Within (keep c s) (c ∷ t)
keep-Within c [] t h = (ground arith, λ k. ground (arith, h.1 k.1))
keep-Within c (d ∷ s) t h = (omega arith, λ k. (k.0, h.1 k.1))

trim_right-Within : (s : Bytes) → Within (trim_right s) s
unfolding trim_right
trim_right-Within [] = (omega arith, λ h. h)
trim_right-Within (c ∷ s) = keep-Within c (trim_right s) s (trim_right-Within s)

pub Within-trans : (a b c : Bytes) → Within a b → Within b c → Within a c
Within-trans a b c h k = (omega arith, λ f. h.1 (k.1 f))

pub trim_space-Within : (s : Bytes) → Within (trim_space s) s
unfolding trim_space
trim_space-Within s =
    Within-trans _ (trim_left s) s (trim_right-Within (trim_left s)) (trim_left-Within s)

abbrev pub BothWithin : Option (Bytes × Bytes) → Bytes → Type 0
BothWithin none t = Unit
BothWithin (some (p, q)) t = Within p t × Within q t

pub split_first-BothWithin : (c : ℕ) (s : Bytes) → BothWithin (split_first c s) s
unfolding split_first
split_first-BothWithin c [] = tt
split_first-BothWithin c (d ∷ s) = by_test (d == c) (split_first c s) (split_first-BothWithin c s)
  where
    by_test :
        (t : Bool) (r : Option (Bytes × Bytes))
        → BothWithin r s
        → BothWithin (if t then some ([], s) else grow d r) (d ∷ s)
    by_test true r h = ((omega arith, λ k. tt), (omega arith, λ k. k.1))
    by_test false none h = tt
    by_test false (some (p, q)) (hp, hq) =
        ((omega arith, λ k. (k.0, hp.1 k.1)), (omega arith, λ k. hq.1 k.1))

pub split_last-BothWithin : (c : ℕ) (s : Bytes) → BothWithin (split_last c s) s
unfolding split_last
split_last-BothWithin c [] = tt
split_last-BothWithin c (d ∷ s) = by_rest (d == c) (split_last c s) (split_last-BothWithin c s)
  where
    by_rest :
        (t : Bool) (r : Option (Bytes × Bytes))
        → BothWithin r s
        → BothWithin
            (elim r [ some (p, q) ↦ some (d ∷ p, q) | none ↦ if t then some ([], s) else none ])
            (d ∷ s)
    by_rest true none h = ((omega arith, λ k. tt), (omega arith, λ k. k.1))
    by_rest false none h = tt
    by_rest t (some (p, q)) (hp, hq) =
        ((omega arith, λ k. (k.0, hp.1 k.1)), (omega arith, λ k. hq.1 k.1))

pub Within-refl : (s : Bytes) → Within s s
Within-refl s = (omega arith, λ h. h)

pub with_epoch-Within :
    (s : Bytes) (r : Option (Bytes × Bytes)) → BothWithin r s → Within (with_epoch s r).1 s
with_epoch-Within s none h = Within-refl s
with_epoch-Within s (some (p, q)) (hp, hq) = by_value (is_empty p) (atoi p)
  where
    by_value :
        (t : Bool) (o : Option ℤ)
        → Within
            (if◌then◌else◌ {A = ℕ × Bytes} t
              (0, s)
              (elim o [ none ↦ (0, s) | some (pos n) ↦ (n, q) | some (negsuc n) ↦ (0, s) ])).1
            s
    by_value true o = Within-refl s
    by_value false none = Within-refl s
    by_value false (some (pos n)) = hq
    by_value false (some (negsuc n)) = Within-refl s
