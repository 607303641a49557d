-- ===== src/Exposure/Order.antt =====
-- internal/exposure/rank.go: Compare is a total order of the rows, and what comes first under it.
use defendsec.Prelude.{
  ℕ, ◌≡◌, sym, ◌∙◌, ap, true, false, ◌&&◌, Option, none, ◌<◌, arith, if◌then◌else◌, compare,
  Ordering, ◌⊎◌, ◌↔◌,
}
use defendsec.Prelude.Int.{ℤ, pos, sign, sign-sub, of_sign}
use defendsec.Prelude.Cmp.{
  lex, lex-eq, IsCmp, lex-IsCmp, compare-IsCmp, cmp_on, cmp_then, cmp_on-IsCmp, cmp_then-IsCmp,
  cmp_option, cmp_desc-IsCmp, cmp_option-IsCmp, or_else, flip, Composes,
}
use defendsec.Prelude.Cmp as Cmp
use defendsec.Exposure.{
  Item, band, effective, severity_rank, label_of, tie_rank, cmp_desc, or_next, compare_items,
  band_kev, ranks_by_severity, eol_score, stage_of, no_stage, stage_eol, critical, high,
}

-- Higher first, and a missing value last.
abbrev desc : Option ℕ → Option ℕ → Ordering
desc = cmp_option (Cmp.cmp_desc compare)

desc-IsCmp : IsCmp desc
desc-IsCmp = cmp_option-IsCmp (cmp_desc-IsCmp compare-IsCmp)

-- The date that counts: none for a row that is not on the KEV list.
abbrev kev_date : Item → Option ℕ
kev_date a = if a.kev then a.kev_added else none

-- The ranking rule, as one lexicographic order.
unfoldable pub rank : Item → Item → Ordering
rank = cmp_then (cmp_on band compare) (
    cmp_then (cmp_on (λ i. kev_date (effective i)) desc) (
      cmp_then (cmp_on (λ i. (effective i).epss) desc) (
        cmp_then (cmp_on (λ i. (effective i).cvss) desc) (
          cmp_then (cmp_on (λ i. severity_rank (label_of (effective i).severity)) compare) (
            cmp_then (cmp_on (λ i. tie_rank (effective i)) compare)
              (cmp_on (λ i. (effective i).advisory_id) lex))))))

pub rank-IsCmp : IsCmp rank
unfolding rank
rank-IsCmp = cmp_then-IsCmp (cmp_on-IsCmp compare-IsCmp band) (
    cmp_then-IsCmp (cmp_on-IsCmp desc-IsCmp (λ i. kev_date (effective i))) (
      cmp_then-IsCmp (cmp_on-IsCmp desc-IsCmp (λ i. (effective i).epss)) (
        cmp_then-IsCmp (cmp_on-IsCmp desc-IsCmp (λ i. (effective i).cvss)) (
          cmp_then-IsCmp
            (cmp_on-IsCmp compare-IsCmp (λ i. severity_rank (label_of (effective i).severity)))
            (cmp_then-IsCmp (cmp_on-IsCmp compare-IsCmp (λ i. tie_rank (effective i)))
              (cmp_on-IsCmp lex-IsCmp (λ i. (effective i).advisory_id)))))))

sign-or_next : (c r : ℤ) → sign (or_next c r) ≡ or_else (sign c) (sign r)
sign-or_next c r = ground arith

sign-cmp_desc : (a b : Option ℕ) → sign (cmp_desc a b) ≡ desc a b
unfolding cmp_desc
sign-cmp_desc a b = ground arith

sign-of_sign : (o : Ordering) → sign (of_sign o) ≡ o
sign-of_sign o = ground arith

-- The exploited rows are those of the first band.
effective-kev : (i : Item) → ((effective i).kev ≡ true) ↔ (band i ≡ band_kev)
unfolding effective band eol_score
effective-kev i = ground arith

abbrev date_part : Item → Item → ℤ
date_part a b = if a.kev && b.kev then cmp_desc a.kev_added b.kev_added else pos 0

sign-date_part :
    (a b : Item)
    → (a.kev ≡ true) ↔ (b.kev ≡ true)
    → sign (date_part a b) ≡ desc (kev_date a) (kev_date b)
sign-date_part a b h = ground (arith, sign-cmp_desc a.kev_added b.kev_added)

same_band : (i j : Item) → band i ≡ band j → ((effective i).kev ≡ true) ↔ ((effective j).kev ≡ true)
same_band i j e = (
  λ h. (effective-kev j).1 (sym e ∙ (effective-kev i).0 h),
  λ h. (effective-kev i).1 (e ∙ (effective-kev j).0 h),
)

or_else_cong :
    (m n : ℕ) (x y : Ordering) → (m ≡ n → x ≡ y) → or_else (compare m n) x ≡ or_else (compare m n) y
or_else_cong m n x y h = ground arith

-- Compare orders the rows by band, then the KEV date, EPSS, the CVSS equivalent, the severity label,
-- the kind of row and the id, which is a total preorder (rank-IsCmp).
pub compare_items-rank : (i j : Item) → sign (compare_items i j) ≡ rank i j
unfolding compare_items rank
compare_items-rank i j =
    simp (sign-or_next, sign-sub, sign-cmp_desc, sign-of_sign)
      (or_else_cong (band i) (band j) _ _
        (λ e. rw (sign-date_part (effective i) (effective j) (same_band i j e))))

effective-advisory_id : (i : Item) → (effective i).advisory_id ≡ i.advisory_id
unfolding effective eol_score
effective-advisory_id i = ground arith

same_id : (i j : Item) → rank i j ≡ Ordering.eq → i.advisory_id ≡ j.advisory_id
unfolding rank
same_id i j h =
    let last : lex (effective i).advisory_id (effective j).advisory_id ≡ Ordering.eq =
      ground arith in
    sym (effective-advisory_id i) ∙ lex-eq _ _ last ∙ effective-advisory_id j

-- Compare is antisymmetric and transitive, ranks a row with itself, and ranks two rows alike only if
-- they have the same id.
pub compare_items_total :
    (i j k : Item)
    → (sign (compare_items i i) ≡ Ordering.eq)
      × (sign (compare_items j i) ≡ flip (sign (compare_items i j)))
      × Composes (sign (compare_items i j)) (sign (compare_items j k)) (sign (compare_items i k))
      × (compare_items i j ≡ pos 0 → i.advisory_id ≡ j.advisory_id)
compare_items_total i j k = (
  compare_items-rank i i ∙ rank-IsCmp.refl_cmp i,
  rw (compare_items-rank i j, compare_items-rank j i) (rank-IsCmp.swap_cmp i j),
  rw (compare_items-rank i j, compare_items-rank j k, compare_items-rank i k)
      (rank-IsCmp.trans_cmp i j k),
  λ h. same_id i j (sym (compare_items-rank i j) ∙ ap sign h),
)

-- A vulnerability: no row of the other kinds.
abbrev pub IsVulnerability : Item → Type 0
IsVulnerability i = (ranks_by_severity i ≡ false) × (stage_of i.eol_stage ≡ no_stage)

-- A surface, identity or repository row of critical or high severity, or software past its end of
-- security support.
abbrev pub IsUrgent : Item → Type 0
IsUrgent i =
    ((ranks_by_severity i ≡ true)
      × ((label_of i.severity ≡ critical) ⊎ (label_of i.severity ≡ high)))
    ⊎ ((ranks_by_severity i ≡ false) × (stage_of i.eol_stage ≡ stage_eol))

rank_bands : (i j : Item) → band i < band j → rank i j ≡ Ordering.lt
unfolding rank
rank_bands i j h = ground arith

-- An exploited vulnerability comes before every urgent row, and every urgent row before every
-- vulnerability that is not known to be exploited, whatever the scores are.
pub exploited_urgent_rest :
    (i j k : Item)
    → IsVulnerability i
    → i.kev ≡ true
    → IsUrgent j
    → IsVulnerability k
    → k.kev ≡ false
    → (sign (compare_items i j) ≡ Ordering.lt) × (sign (compare_items j k) ≡ Ordering.lt)
unfolding band
exploited_urgent_rest i j k vi hi uj vk hk = (
  compare_items-rank i j ∙ rank_bands i j (ground arith),
  compare_items-rank j k ∙ rank_bands j k (ground arith),
)
