-- ===== src/Vuln/Match/Windows.antt =====
-- internal/vuln/windows.go: the missing updates of a Windows host, mapped to what they fix; and the
-- result of a match, of match.go. Which texts are KB numbers is decided by a regular expression, and
-- the ranges come from the advisory store: both are parameters, with `none` for an error of the store.
-- A map is the list of its entries.
pub mod Listed
pub mod Mapped
use defendsec.Prelude.{
  ℕ, zero, suc, Bool, true, false, not, ◌&&◌, ◌||◌, Option, none, some, List, [], ◌∷◌, ◌++◌, length,
  if◌then◌else◌, Ordering,
}
use defendsec.Prelude.Cmp.{lex, or_else}
use defendsec.Prelude.Sort.{add_name, insert_by, sort_by}
use defendsec.Prelude.Text.{Bytes, codes, eq_bytes, is_empty, trim_space}
use defendsec.Vuln.Match.{
  FixState, fixed, finding, distro_basis, Package, Candidate, Finding, new_finding,
}
use defendsec.Vuln.Match.Merge.{merge_all}

pub data Coverage : Type 0 where
  covered no_feed no_distro : Coverage

pub record Stats : Type 0 where
  pub packages : ℕ
  pub distro_mapped : ℕ
  pub upstream : ℕ
  pub not_affected : ℕ
  pub undecidable : ℕ
  pub advisories : ℕ
  pub unfixed : ℕ
  pub informational : ℕ
  pub awaiting_vendor : ℕ
  pub eol_mapped : ℕ
  pub eol_distro_origin : ℕ
  pub eol_origin_unknown : ℕ
  pub eol_no_release : ℕ
  pub eol_supported : ℕ
  pub repo_health_checked : ℕ
  pub repo_health_findings : ℕ

abbrev pub no_stats : Stats
no_stats = record {
  packages = 0;
  distro_mapped = 0;
  upstream = 0;
  not_affected = 0;
  undecidable = 0;
  advisories = 0;
  unfixed = 0;
  informational = 0;
  awaiting_vendor = 0;
  eol_mapped = 0;
  eol_distro_origin = 0;
  eol_origin_unknown = 0;
  eol_no_release = 0;
  eol_supported = 0;
  repo_health_checked = 0;
  repo_health_findings = 0;
}

pub record Result : Type 0 where
  pub repo_health_assessed : Bool
  pub distro : Bytes
  pub release : Bytes
  pub coverage : Coverage
  pub findings : List Finding
  pub stats : Stats

pub record MissingPatch : Type 0 where
  pub kb : Bytes
  pub title : Bytes
  pub status : Bytes

abbrev pub windows_distro : Bytes
windows_distro = codes "windows"

abbrev pub approved_pending : Bytes
approved_pending = codes "approved_pending"

abbrev pub not_approved : Bytes
not_approved = codes "not_approved"

-- An update is listed once; one that is approved takes the place of one that is not.
unfoldable pub add_patch : MissingPatch → List MissingPatch → List MissingPatch
unfolding eq_bytes
add_patch m [] = m ∷ []
add_patch m (prev ∷ rest) =
    let later = add_patch m rest in
    if eq_bytes prev.kb m.kb
    then (if eq_bytes prev.status not_approved && eq_bytes m.status approved_pending
        then m ∷ rest
        else prev ∷ rest)
    else prev ∷ later

unfoldable pub find_patch : Bytes → List MissingPatch → Option MissingPatch
unfolding eq_bytes
find_patch kb [] = none
find_patch kb (m ∷ rest) = if eq_bytes m.kb kb then some m else find_patch kb rest

unfoldable pub windows_reason : MissingPatch → Bytes
unfolding eq_bytes is_empty trim_space
windows_reason m =
    let how =
      if eq_bytes m.status approved_pending
      then codes "approved in the RMM patch policy and waiting to install"
      else (if eq_bytes m.status not_approved
          then codes "not yet approved in the RMM patch policy"
          else codes "listed by the RMM as not installed") in
    let title = trim_space m.title in
    m.kb
    ++ (codes " fixes this and is "
        ++ (how ++ (if is_empty title then [] else codes " (" ++ (title ++ codes ")"))))

abbrev pub update_package : MissingPatch → Package
update_package m = record {
  name = m.kb;
  version = [];
  source_package = [];
  source_version = [];
  origin = [];
  origin_repo = [];
}

abbrev pub update_finding : Candidate → MissingPatch → Finding
update_finding c m =
    new_finding c (update_package m) (codes "not installed") distro_basis finding (windows_reason m)

abbrev pub is_fixed_state : FixState → Bool
is_fixed_state fixed = true
is_fixed_state _ = false

-- The missing update that a range is of, if its state counts.
abbrev pub patch_of : List MissingPatch → Candidate → Option MissingPatch
patch_of patches c =
    if not (is_fixed_state c.state) then none else find_patch c.package_name patches

-- The findings that the loop over the ranges adds, in order.
unfoldable pub findings_of : List MissingPatch → List Candidate → List Finding
findings_of patches [] = []
findings_of patches (c ∷ cands) = elim (patch_of patches c) [
  | none ↦ findings_of patches cands
  | some m ↦ update_finding c m ∷ findings_of patches cands
]

unfoldable pub mapped_names : List MissingPatch → List Candidate → List Bytes
mapped_names patches [] = []
mapped_names patches (c ∷ cands) = elim (patch_of patches c) [
  | none ↦ mapped_names patches cands
  | some m ↦ add_name c.package_name (mapped_names patches cands)
]

unfoldable pub advisory_names : List MissingPatch → List Candidate → List Bytes
advisory_names patches [] = []
advisory_names patches (c ∷ cands) = elim (patch_of patches c) [
  | none ↦ advisory_names patches cands
  | some m ↦ add_name c.advisory_id (advisory_names patches cands)
]

-- The order of the sorted findings.
abbrev pub finding_cmp : Finding → Finding → Ordering
finding_cmp a b = or_else (lex a.advisory_id b.advisory_id) (lex a.package_name b.package_name)

unfoldable pub values : List (Bytes × Finding) → List Finding
values [] = []
values ((k, f) ∷ m) = f ∷ values m

unfoldable pub kbs_of : List MissingPatch → List Bytes
kbs_of [] = []
kbs_of (m ∷ rest) = m.kb ∷ kbs_of rest

abbrev pub empty_result : Coverage → ℕ → Result
empty_result coverage packages = record {
  repo_health_assessed = false;
  distro = windows_distro;
  release = [];
  coverage = coverage;
  findings = [];
  stats = record no_stats { packages = packages };
}

-- What is done with the ranges that the store returns.
unfoldable pub with_ranges : List MissingPatch → List Candidate → Result
with_ranges patches cands = record {
  repo_health_assessed = false;
  distro = windows_distro;
  release = [];
  coverage = covered;
  findings = sort_by finding_cmp (values (merge_all [] (findings_of patches cands)));
  stats = record no_stats {
    packages = length patches;
    distro_mapped = length (mapped_names patches cands);
    advisories = length (advisory_names patches cands);
  };
}

-- `is_covered` and `ranges` are the answers of the store.
module _ (normalize_kb : Bytes → Bytes) (is_covered : Option Bool)
    (ranges : List Bytes → Option (List Candidate)) where
  unfoldable pub patches_of : List MissingPatch → List MissingPatch → List MissingPatch
  unfolding add_patch is_empty
  patches_of acc [] = acc
  patches_of acc (m ∷ missing) =
      let kb = normalize_kb m.kb in
      let skip = patches_of acc missing in
      let keep = patches_of (add_patch (record m { kb = kb }) acc) missing in
      if is_empty kb then skip else keep

  abbrev pub with_patches : List MissingPatch → Option Result
  with_patches [] = some (empty_result covered 0)
  with_patches (m ∷ rest) = elim (ranges (sort_by lex (kbs_of (m ∷ rest)))) [
    | none ↦ none
    | some cands ↦ some (with_ranges (m ∷ rest) cands)
  ]

  unfoldable pub match_windows : List MissingPatch → Option Result
  match_windows missing = elim is_covered [
    | none ↦ none
    | some false ↦ some (empty_result no_feed 0)
    | some true ↦ with_patches (patches_of [] missing)
  ]
