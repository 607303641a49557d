-- ===== src/Anchor/Tests.antt =====
-- internal/anchor: three anchors, of which one failed and one is of a chain that was rebuilt.
use defendsec.Prelude.{Bool, ◌≡◌, refl, ◌+◌, Option, some, List, [], ◌∷◌, ◌↔◌, if◌then◌else◌}
use defendsec.Prelude.Int.{ℤ, pos, eq_ℤ}
use defendsec.Prelude.Sort.{Among}
use defendsec.Prelude.Text.{Bytes, codes, is_empty, eq_bytes}
use defendsec.Anchor.{
  AnchorRecord, Verification, is_published, compare_hash, verify_anchor, verify_against, count_all,
  summarise,
}
use defendsec.Anchor.Clean.{IsInChain, summarise_clean_iff}

abbrev anchor_at : ℤ → Bytes → Bytes → AnchorRecord
anchor_at seq hash error = record {
  id = [];
  through_seq = seq;
  entry_hash = hash;
  kind = codes "file";
  target = [];
  anchored_at = pos 0;
  external_time = pos 0;
  proof = [];
  reference = [];
  error = error;
}

abbrev anchors : List AnchorRecord
anchors =
    anchor_at (pos 1) (codes "aa") []
    ∷ anchor_at (pos 2) (codes "bb") []
    ∷ anchor_at (pos 9) (codes "cc") (codes "no network")
    ∷ []

abbrev rebuilt : ℤ → Option Bytes
rebuilt seq = if eq_ℤ seq (pos 1) then some (codes "aa") else some (codes "xx")

abbrev no_date : ℤ → Bytes
no_date t = codes "2026-01-01"

abbrev unsorted : (Verification → Verification → Bool) → List Verification → List Verification
unsorted before vs = vs

summarise_clean_iff_example :
    ((summarise (verify_against no_date rebuilt unsorted anchors)).counts.mismatched
        + (summarise (verify_against no_date rebuilt unsorted anchors)).counts.missing
      ≡ 0)
    ↔ ((a : AnchorRecord) → Among a anchors → IsInChain no_date rebuilt a)
summarise_clean_iff_example =
    summarise_clean_iff no_date rebuilt unsorted (λ vs v. (λ i. i, λ i. i)) anchors

one_rebuilt : (summarise (verify_against no_date rebuilt unsorted anchors)).counts.mismatched ≡ 1
unfolding summarise verify_against verify_anchor count_all compare_hash eq_bytes is_empty
    is_published
one_rebuilt = refl
