-- ===== src/Vuln/Match/Merge.antt =====
-- internal/vuln/match.go, addFinding: one finding for an advisory and a package family. The map is a
-- list of its entries.
pub mod Best
use defendsec.Prelude.{
  ℕ, ◌≡◌, refl, sym, ◌∙◌, ap, ◌≢◌, Bool, true, false, not, Option, none, some, List, [], ◌∷◌, ◌==◌,
  ltb, if◌then◌else◌, arith, Ordering, ◌≤◌, ◌<◌, ◌⊎◌, inl, inr, Bool-cases,
}
use defendsec.Prelude.Cmp.{lex, lex-IsCmp, Composes}
use defendsec.Prelude.Text.{Bytes, eq_bytes, eq_bytes_iff}
use defendsec.Vuln.Match.{
  Kind, finding, unfixed, informational, awaiting_vendor, eol, repo_health, Finding, finding_key,
}
use defendsec.Vuln.Match.Host.{kind_rank}

abbrev pub eq_kind : Kind → Kind → Bool
eq_kind finding finding = true
eq_kind unfixed unfixed = true
eq_kind informational informational = true
eq_kind awaiting_vendor awaiting_vendor = true
eq_kind eol eol = true
eq_kind repo_health repo_health = true
eq_kind _ _ = false

-- The order of strings in Go.
abbrev pub ltb_bytes : Bytes → Bytes → Bool
ltb_bytes a b = elim (lex a b) [ Ordering.lt ↦ true | _ ↦ false ]

unfoldable pub find_finding : Bytes → List (Bytes × Finding) → Option Finding
find_finding k [] = none
find_finding k ((k', f) ∷ m) = if eq_bytes k' k then some f else find_finding k m

unfoldable pub put_finding : Bytes → Finding → List (Bytes × Finding) → List (Bytes × Finding)
put_finding k f [] = (k, f) ∷ []
put_finding k f ((k', g) ∷ m) = if eq_bytes k' k then (k, f) ∷ m else (k', g) ∷ put_finding k f m

-- Does the new finding take the place of the one that is there?
abbrev pub replaces : Finding → Finding → Bool
replaces f prev =
    if not (eq_kind prev.kind f.kind)
    then ltb (kind_rank f.kind) (kind_rank prev.kind)
    else ltb_bytes f.package_name prev.package_name

unfoldable pub add_finding : List (Bytes × Finding) → Finding → List (Bytes × Finding)
add_finding m f = elim (find_finding (finding_key f) m) [
  | none ↦ put_finding (finding_key f) f m
  | some prev ↦ if replaces f prev then put_finding (finding_key f) f m else m
]

-- The calls of addFinding, in order.
unfoldable pub merge_all : List (Bytes × Finding) → List Finding → List (Bytes × Finding)
merge_all m [] = m
merge_all m (f ∷ fs) = merge_all (add_finding m f) fs
