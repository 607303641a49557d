-- ===== src/Lifecycle.antt =====
-- internal/lifecycle/assess.go: where a release of a product stands on a day, the order of release
-- cycles, and the release to upgrade to. A date is its text YYYY-MM-DD, which orders by bytes; times
-- and ids of feed snapshots are numbers. The releases of a product, a map in the source, are the list
-- of its values. strconv.Atoi is taken on numbers below 2^63.
pub mod Assess
pub mod Cycles
pub mod Mapping
pub mod Origin
pub mod Report
pub mod Upgrade
pub mod Tests
use defendsec.Prelude.{
  ℕ, Bool, true, false, not, ◌&&◌, ◌||◌, Option, none, some, List, [], ◌∷◌, ◌++◌, if◌then◌else◌,
  compare, Ordering, ◌==◌,
}
use defendsec.Prelude.Int.{ℤ, pos, negsuc, pos_part, neg_part, ltb_ℤ, eq_ℤ}
use defendsec.Prelude.Cmp.{lex}
use defendsec.Prelude.Text.{Bytes, codes, is_empty, split_first, atoi}

pub record Release : Type 0 where
  pub product : Bytes
  pub label : Bytes
  pub cycle : Bytes
  pub release_date : Bytes
  pub eoas_from : Bytes
  pub eol_from : Bytes
  pub eoes_from : Bytes
  pub is_eol : Bool
  pub is_lts : Bool
  pub latest : Bytes
  pub link : Bytes
  pub snapshot_id : Option ℕ
  pub feed_date : Option ℕ

pub data Stage : Type 0 where
  supported stage_eol stage_eoas : Stage

-- a <= b for strings
abbrev pub leb_bytes : Bytes → Bytes → Bool
leb_bytes a b = elim (lex a b) [ Ordering.gt ↦ false | _ ↦ true ]

-- StageOf; `supported` is the empty stage.
unfoldable pub stage_of : Release → Bytes → Stage
unfolding is_empty
stage_of r as_of =
    if not (is_empty r.eol_from) && leb_bytes r.eol_from as_of
    then stage_eol
    else (if is_empty r.eol_from && r.is_eol
        then stage_eol
        else (if not (is_empty r.eoas_from) && leb_bytes r.eoas_from as_of
            then stage_eoas
            else supported))

-- strings.Split at a byte, one part more than there are separators.
unfoldable pub split_at : ℕ → Bytes → List Bytes
split_at sep [] = [] ∷ []
split_at sep (c ∷ s) =
    let parts = split_at sep s in
    if c == sep then [] ∷ parts else elim parts [ [] ↦ (c ∷ []) ∷ [] | p ∷ ps ↦ (c ∷ p) ∷ ps ]

unfoldable pub all_numbers : List Bytes → Bool
unfolding atoi
all_numbers [] = true
all_numbers (p ∷ ps) = elim (atoi p) [ none ↦ false | some n ↦ all_numbers ps ]

unfoldable pub numeric_cycle : Bytes → Bool
unfolding is_empty split_at all_numbers
numeric_cycle c = if is_empty c then false else all_numbers (split_at b'.' c)

-- The number of a part, and 0 where it is none or there is no such part.
abbrev pub or_zero : Option ℤ → ℤ
or_zero none = pos 0
or_zero (some n) = n

abbrev pub number_of : Bytes → ℤ
number_of p = or_zero (atoi p)

-- One round of the loop: `rest` is what the later rounds return.
abbrev pub cmp_number : ℤ → ℤ → ℤ → ℤ
cmp_number x y rest = if eq_ℤ x y then rest else (if ltb_ℤ x y then negsuc 0 else pos 1)

unfoldable pub cmp_parts : List Bytes → List Bytes → ℤ
unfolding atoi
cmp_parts [] [] = pos 0
cmp_parts [] (q ∷ qs) = cmp_number (pos 0) (number_of q) (cmp_parts [] qs)
cmp_parts (p ∷ ps) [] = cmp_number (number_of p) (pos 0) (cmp_parts ps [])
cmp_parts (p ∷ ps) (q ∷ qs) = cmp_number (number_of p) (number_of q) (cmp_parts ps qs)

unfoldable pub cmp_cycle : Bytes → Bytes → ℤ
unfolding split_at cmp_parts
cmp_cycle a b = cmp_parts (split_at b'.' a) (split_at b'.' b)

abbrev pub is_stage_eol : Stage → Bool
is_stage_eol stage_eol = true
is_stage_eol _ = false

abbrev pub is_supported : Stage → Bool
is_supported supported = true
is_supported _ = false

-- Does the loop take the release for a candidate?
unfoldable pub is_newer : Bytes → Bytes → Release → Bool
is_newer cycle day r =
    ltb_ℤ (pos 0) (cmp_cycle r.cycle cycle)
    && (numeric_cycle r.cycle && not (is_stage_eol (stage_of r day)))

unfoldable pub newer : Bytes → Bytes → List Release → List Release
newer cycle day [] = []
newer cycle day (r ∷ rs) =
    let rest = newer cycle day rs in if is_newer cycle day r then r ∷ rest else rest

-- sort.Slice by cmpCycle. Cycles that compare equal keep their order here; the source leaves it open.
unfoldable pub insert : Release → List Release → List Release
insert r [] = r ∷ []
insert r (s ∷ rs) =
    let rest = insert r rs in
    if ltb_ℤ (cmp_cycle s.cycle r.cycle) (pos 0) then s ∷ rest else r ∷ s ∷ rs

unfoldable pub sort : List Release → List Release
unfolding insert
sort [] = []
sort (r ∷ rs) = insert r (sort rs)

-- The first release with active support left, or the one given.
unfoldable pub pick : Bytes → Release → List Release → Release
pick day default_release [] = default_release
pick day default_release (r ∷ rs) =
    if is_supported (stage_of r day) then r else pick day default_release rs

pub record UpgradePath : Type 0 where
  pub to : Bytes
  pub until : Bytes
  pub fixed : Bytes

-- upgradePath; `none` is three empty strings.
unfoldable pub upgrade_path : List Release → Bytes → Bytes → Option UpgradePath
upgrade_path rels cycle day = elim (sort (newer cycle day rels)) [
  | [] ↦ none
  | first ∷ rest ↦
      let p = pick day first (first ∷ rest) in
      some (record { to = p.cycle; until = p.eol_from; fixed = first.cycle })
]
