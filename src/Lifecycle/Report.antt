-- ===== src/Lifecycle/Report.antt =====
-- internal/lifecycle/assess.go: what the judgement reports of a release past its support.
use defendsec.Prelude.{ℕ, Option, List, [], ◌∷◌, ◌++◌, if◌then◌else◌, not}
use defendsec.Prelude.Text.{Bytes, codes, is_empty}
use defendsec.Lifecycle.{Stage, stage_eol}
use defendsec.Lifecycle.Origin.{Origin}

-- lifecycle.Finding
pub record EolFinding : Type 0 where
  pub product : Bytes
  pub product_label : Bytes
  pub cycle : Bytes
  pub stage : Stage
  pub stage_from : Bytes
  pub eol_from : Bytes
  pub eoas_from : Bytes
  pub eoes_from : Bytes
  pub package_name : Bytes
  pub installed : Bytes
  pub packages : List Bytes
  pub origin : Origin
  pub origin_label : Bytes
  pub origin_repo : Bytes
  pub upgrade_to : Bytes
  pub upgrade_to_supported_until : Bytes
  pub fixed : Bytes
  pub latest : Bytes
  pub link : Bytes
  pub snapshot_id : Option ℕ
  pub feed_date : Option ℕ
  pub reason : Bytes

unfoldable pub eol_advisory_id : EolFinding → Bytes
eol_advisory_id f = codes "EOL:" ++ (f.product ++ b':' ∷ f.cycle)

-- What the reason says of the stage.
abbrev pub stage_words : EolFinding → Bytes → Stage → Bytes
stage_words f name stage_eol =
    name
    ++ (if not (is_empty f.eol_from)
        then codes " reached end of life on "
          ++ (f.eol_from ++ codes ": upstream no longer issues security fixes for it")
        else codes " is end of life: upstream no longer issues security fixes for it")
stage_words f name _ =
    name
    ++ (codes " left active support on "
        ++ (f.eoas_from
            ++ (if not (is_empty f.eol_from)
                then codes "; security fixes continue until " ++ f.eol_from
                else [])))

abbrev pub upgrade_words : EolFinding → Bytes
upgrade_words f =
    if is_empty f.upgrade_to
    then []
    else codes "; upgrading to "
      ++ (f.product_label
          ++ (b' ' ∷ f.upgrade_to
              ++ (codes " fixes it"
                  ++ (if is_empty f.upgrade_to_supported_until
                      then []
                      else codes " (security support until "
                        ++ (f.upgrade_to_supported_until ++ codes ")")))))

unfoldable pub reason_of : EolFinding → Bytes
unfolding is_empty
reason_of f =
    stage_words f (f.product_label ++ b' ' ∷ f.cycle) f.stage
    ++ (codes ". It came from a repository that is not the distribution's"
        ++ ((if is_empty f.origin_label then [] else codes " (" ++ (f.origin_label ++ codes ")"))
            ++ (codes ", so nobody else is patching it" ++ (upgrade_words f ++ codes "."))))
