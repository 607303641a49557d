-- ===== src/Lifecycle/Assess/Count.antt =====
-- internal/lifecycle/assess.go, Assess: the counts of a run.
use defendsec.Prelude.{ℕ, ◌≤◌, ◌≡◌, true, Option, List, ◌&&◌, length, Bool}
use defendsec.Prelude.Sort.{Among}
use defendsec.Prelude.Text.{Bytes}
use defendsec.Lifecycle.{Release}
use defendsec.Lifecycle.Mapping.{Match}
use defendsec.Lifecycle.Origin.{Origin}
use defendsec.Lifecycle.Report.{EolFinding}
use defendsec.Lifecycle.Assess.{HostPackage, LifecycleHost, LifecycleStats, Mapped}
use defendsec.Lifecycle.Assess.Named.{IsNamed, HasCandidate}
use defendsec.Lifecycle.Assess.Tally.{
  count, is_third, is_distro, is_unknown, is_unlisted, is_current, is_past, maps_to,
}

module _ (find : Bytes → Bytes → Option (List Bytes)) (markers : List ((Bytes → Bool) × Bytes))
    (day : Bytes) (rels : List Release) (h : LifecycleHost) where
  -- How many packages of the host the table maps to a product and an origin that pass the test.
  abbrev pub packages_with : (Match → Origin → Bool) → ℕ
  packages_with test = count (maps_to find markers h test) h.packages

  -- The counts are those of the packages: of all that are mapped; of the distribution's own and of
  -- those of unknown origin; and of the third parties' those of no release that is listed and of one
  -- with support left. The findings are counted, and are no more than the packages past support.
  abbrev pub Counts : List EolFinding × LifecycleStats → Type 0
  Counts (out, st) =
      (st.mapped ≡ packages_with (λ m o. true))
      × (st.distro_origin ≡ packages_with (λ m o. is_distro o))
      × (st.origin_unknown ≡ packages_with (λ m o. is_unknown o))
      × (st.no_release ≡ packages_with (λ m o. is_third o && is_unlisted day rels m))
      × (st.supported ≡ packages_with (λ m o. is_third o && is_current day rels m))
      × (st.findings ≡ length out)
      × (length out ≤ packages_with (λ m o. is_third o && is_past day rels m))

  -- The findings name every package of a third party whose release is past its support.
  abbrev pub NamesAll : List EolFinding → Type 0
  NamesAll out =
      (p : HostPackage)
      → Among p h.packages
      → maps_to find markers h (λ m o. is_third o && is_past day rels m) p ≡ true
      → IsNamed p.name out

  -- The packages past support that are still to be judged.
  abbrev HasAll : List Mapped → Type 0
  HasAll cands =
      (p : HostPackage)
      → Among p h.packages
      → maps_to find markers h (λ m o. is_third o && is_past day rels m) p ≡ true
      → HasCandidate find markers h p.name (is_past day rels) cands
