-- ===== src/Lifecycle/Origin.antt =====
-- internal/lifecycle/origin.go: whether a package is the distribution's own. The regular expressions
-- of the markers of third-party builds are matched by a library: a marker is a test and a label.
use defendsec.Prelude.{
  ◌≡◌, refl, Bool, true, false, not, ◌&&◌, Option, none, some, List, [], ◌∷◌, if◌then◌else◌, ◌↔◌,
  arith,
}
use defendsec.Prelude.Text.{Bytes, codes, to_lower, trim_space, is_empty, eq_bytes}

pub data Origin : Type 0 where
  distro_origin third_party unknown_origin : Origin

abbrev pub suse_labels : List Bytes
suse_labels = codes "suse llc" ∷ codes "suse" ∷ codes "opensuse" ∷ []

abbrev pub distro_labels : List (Bytes × List Bytes)
distro_labels =
    (codes "debian", codes "debian" ∷ [])
    ∷ (codes "ubuntu", codes "ubuntu" ∷ codes "ubuntuesm" ∷ codes "ubuntuesmapps" ∷ [])
    ∷ (codes "raspbian", codes "raspbian" ∷ codes "debian" ∷ [])
    ∷ (
      codes "rocky",
      codes "rocky enterprise software foundation" ∷ codes "rocky linux" ∷ codes "rocky" ∷ [],
    )
    ∷ (codes "almalinux", codes "almalinux" ∷ codes "almalinux os foundation" ∷ [])
    ∷ (codes "rhel", codes "red hat, inc." ∷ codes "red hat" ∷ [])
    ∷ (codes "centos", codes "centos" ∷ codes "red hat, inc." ∷ [])
    ∷ (codes "ol", codes "oracle america" ∷ codes "oracle" ∷ [])
    ∷ (codes "fedora", codes "fedora project" ∷ codes "fedora" ∷ [])
    ∷ (codes "amzn", codes "amazon linux" ∷ codes "amazon.com" ∷ codes "amazon" ∷ [])
    ∷ (codes "opensuse-leap", suse_labels)
    ∷ (codes "opensuse-tumbleweed", suse_labels)
    ∷ (codes "sles", codes "suse llc" ∷ codes "suse" ∷ [])
    ∷ []

unfoldable pub labels_of : Bytes → List (Bytes × List Bytes) → Option (List Bytes)
unfolding eq_bytes
labels_of distro [] = none
labels_of distro ((d, labels) ∷ table) =
    if eq_bytes d distro then some labels else labels_of distro table

unfoldable pub known_distro : Bytes → Bool
known_distro distro = elim (labels_of (to_lower (trim_space distro)) distro_labels) [
  | none ↦ false
  | some labels ↦ true
]

unfoldable pub has_label : Bytes → List Bytes → Bool
unfolding eq_bytes
has_label label [] = false
has_label label (l ∷ labels) = if eq_bytes label l then true else has_label label labels

-- A missing key of the table gives no labels.
unfoldable pub own_label : Bytes → Bytes → Bool
own_label distro raw_label =
    let label = to_lower (trim_space raw_label) in
    if is_empty label
    then false
    else elim (labels_of (to_lower (trim_space distro)) distro_labels) [
      | none ↦ has_label label []
      | some labels ↦ has_label label labels
    ]

-- The first marker that matches.
unfoldable pub marked_as : Bytes → List ((Bytes → Bool) × Bytes) → Option Bytes
marked_as version [] = none
marked_as version ((matches, label) ∷ markers) =
    if matches version then some label else marked_as version markers

-- Neither a package manager nor a distribution.
abbrev pub is_bare : Bytes → Bytes → Bool
is_bare distro manager = is_empty manager && is_empty (trim_space distro)

unfoldable pub classify_origin :
    List ((Bytes → Bool) × Bytes) → Bytes → Bytes → Bytes → Bytes → Origin × Bytes
classify_origin markers distro manager version raw_label =
    let label = trim_space raw_label in
    if is_bare distro manager
    then (third_party, codes "installed outside a package manager")
    else (if not (is_empty label)
        then (if not (known_distro distro)
            then (unknown_origin, label)
            else (if own_label distro label then (distro_origin, label) else (third_party, label)))
        else elim (marked_as version markers) [
          | some l ↦ (third_party, l)
          | none ↦ (unknown_origin, [])
        ])

own_label-known :
    (distro label : Bytes) → own_label distro label ≡ true → known_distro distro ≡ true
unfolding own_label known_distro has_label
own_label-known distro label h = ground arith

own_label-not_empty :
    (distro label : Bytes) → own_label distro label ≡ true → is_empty label ≡ false
unfolding own_label is_empty trim_space to_lower
own_label-not_empty distro [] h = cc
own_label-not_empty distro (c ∷ label) h = refl

-- A package is the distribution's own exactly if the host has a package manager or a distribution and
-- the label, its spaces trimmed, is one of the distribution's; whatever the markers of third parties
-- say.
pub classify_origin-own :
    (markers : List ((Bytes → Bool) × Bytes)) (distro manager version label : Bytes)
    → ((classify_origin markers distro manager version label).0 ≡ distro_origin)
      ↔ ((is_bare distro manager ≡ false) × (own_label distro (trim_space label) ≡ true))
unfolding classify_origin
classify_origin-own markers distro manager version label = ground (
  arith,
  own_label-known distro (trim_space label),
  own_label-not_empty distro (trim_space label),
)
