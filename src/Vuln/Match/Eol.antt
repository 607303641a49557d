-- ===== src/Vuln/Match/Eol.antt =====
-- internal/vuln/eol.go: the finding of a release past its support, and its key.
pub mod Tests
use defendsec.Prelude.{
  ℕ, zero, suc, ◌<◌, ◌≡◌, refl, sym, ◌∙◌, ap, Bool, true, false, not, ◌&&◌, Option, none, some,
  List, [], ◌∷◌, ◌++◌, if◌then◌else◌, arith,
}
use mathlib.Core.List.{append_assoc}
use defendsec.Prelude.Text.{Bytes, codes, is_empty}
use defendsec.Lifecycle.{Stage, stage_eol, stage_eoas, supported}
use defendsec.Lifecycle.Report.{EolFinding, eol_advisory_id}
use defendsec.Vuln.Details.{EolDetail}
use defendsec.Vuln.Dpkg.Order.{NulFree}
use defendsec.Vuln.Match.{Finding, other_state, eol, lifecycle_basis, finding_key, family_of}

abbrev pub is_eol_stage : Stage → Bool
is_eol_stage stage_eol = true
is_eol_stage _ = false

abbrev pub eol_state : Stage → Bytes
eol_state stage_eoas = codes "end_of_active_support"
eol_state _ = codes "end_of_life"

-- The severity and the summary.
abbrev pub eol_words : EolFinding → Stage → Bytes × Bytes
eol_words f stage_eoas = (
  codes "low",
  f.product_label ++ b' ' ∷ (f.cycle ++ (codes " left active support on " ++ f.eoas_from)),
)
eol_words f stage = (
  codes "high",
  f.product_label
      ++ b' '
        ∷ (f.cycle
            ++ (if not (is_empty f.eol_from) && is_eol_stage stage
                then codes " reached end of life on " ++ f.eol_from
                else codes " is end of life")),
)

abbrev pub stage_text : Stage → Bytes
stage_text stage_eol = codes "eol"
stage_text stage_eoas = codes "eoas"
stage_text supported = []

unfoldable pub eol_finding : EolFinding → Finding
eol_finding f = record {
  advisory_id = eol_advisory_id f;
  cve = [];
  range_id = 0;
  snapshot_id = f.snapshot_id;
  feed = codes "endoflife";
  feed_date = f.feed_date;
  kind = eol;
  basis = lifecycle_basis;
  package_name = f.package_name;
  source_package = f.product;
  installed = f.installed;
  fixed_in = [];
  fix_state = other_state (eol_state f.stage);
  severity = (eol_words f f.stage).0;
  summary = (eol_words f f.stage).1;
  kev = false;
  epss = none;
  cvss = none;
  reason = f.reason;
  upstream_fixed_on = [];
  eol_detail = some (record {
    product = f.product;
    product_label = f.product_label;
    cycle = f.cycle;
    stage = stage_text f.stage;
    stage_from = f.stage_from;
    eol_from = f.eol_from;
    eoas_from = f.eoas_from;
    eoes_from = f.eoes_from;
    packages = f.packages;
    origin = f.origin_label;
    origin_repo = f.origin_repo;
    upgrade_to = f.upgrade_to;
    upgrade_to_supported_until = f.upgrade_to_supported_until;
    latest = f.latest;
    link = f.link;
  });
  repo_detail = none;
}

-- What stands before the first NUL byte, and after it, is determined.
nul_split :
    (xs ys r t : Bytes) → NulFree xs → NulFree ys → xs ++ 0 ∷ r ≡ ys ++ 0 ∷ t → (xs ≡ ys) × (r ≡ t)
nul_split [] [] r t h k e = ground arith
nul_split [] (y ∷ ys) r t h k e = ground arith
nul_split (x ∷ xs) [] r t h k e = ground arith
nul_split (x ∷ xs) (y ∷ ys) r t h k e = ground (arith, nul_split xs ys r t h.1 k.1)

append-NulFree : (a b : Bytes) → NulFree a → NulFree b → NulFree (a ++ b)
append-NulFree [] b h k = k
append-NulFree (x ∷ a) b h k = (h.0, append-NulFree a b h.1 k)

append_cancel : (a b c : Bytes) → a ++ b ≡ a ++ c → b ≡ c
append_cancel [] b c e = e
append_cancel (x ∷ a) b c e = append_cancel a b c (ground arith)

abbrev IsNamed : EolFinding → Type 0
IsNamed f = NulFree f.product × NulFree f.cycle × (is_empty f.product ≡ false)

eol_advisory_id-NulFree : (f : EolFinding) → IsNamed f → NulFree (eol_advisory_id f)
unfolding eol_advisory_id
eol_advisory_id-NulFree f (p, c, n) =
    append-NulFree (codes "EOL:") (f.product ++ b':' ∷ f.cycle) (omega arith)
      (append-NulFree f.product (b':' ∷ f.cycle) p (omega arith, c))

eol_finding-key :
    (f : EolFinding)
    → is_empty f.product ≡ false
    → finding_key (eol_finding f) ≡ eol_advisory_id f ++ 0 ∷ f.product
unfolding finding_key eol_finding family_of
eol_finding-key f n = rw n refl

-- Two findings of the end of life have one key only if they are of one release of one product; their
-- products are not empty, and products and cycles hold no NUL byte.
pub eol_key-injective :
    (f g : EolFinding)
    → IsNamed f
    → IsNamed g
    → finding_key (eol_finding f) ≡ finding_key (eol_finding g)
    → (f.product ≡ g.product) × (f.cycle ≡ g.cycle)
unfolding eol_advisory_id
eol_key-injective f g hf hg e =
    let (ids, products) =
      nul_split (eol_advisory_id f) (eol_advisory_id g) f.product g.product
        (eol_advisory_id-NulFree f hf) (eol_advisory_id-NulFree g hg)
        (sym (eol_finding-key f hf.2) ∙ e ∙ eol_finding-key g hg.2) in
    let tails =
      append_cancel (codes "EOL:") (f.product ++ b':' ∷ f.cycle) (g.product ++ b':' ∷ g.cycle)
        ids in
    let same : f.product ++ b':' ∷ f.cycle ≡ f.product ++ b':' ∷ g.cycle =
      tails ∙ ap (λ p. p ++ b':' ∷ g.cycle) (sym products) in
    let colon = append_cancel f.product (b':' ∷ f.cycle) (b':' ∷ g.cycle) same in
    (products, ground (arith, colon))
