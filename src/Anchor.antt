-- ===== src/Anchor.antt =====
-- internal/anchor/anchor.go: published anchors against the chain as it stands. The dates are parameters,
-- sort.Slice is one, and so are the hashes of the chain now. Publishing and the file format are not
-- modelled.
pub mod Clean
mod Tests
use defendsec.Prelude.{
  ℕ, ◌+◌, Bool, true, false, not, ◌||◌, Option, none, some, List, [], ◌∷◌, ◌++◌, map, length, ltb,
  ◌==◌, if◌then◌else◌,
}
use defendsec.Prelude.Int.{ℤ, ltb_ℤ}
use defendsec.Prelude.Text.{Bytes, codes, is_empty, eq_bytes, decimal}
use defendsec.Sign.{integer}

pub record AnchorRecord : Type 0 where
  pub id : Bytes
  pub through_seq : ℤ
  pub entry_hash : Bytes
  pub kind : Bytes
  pub target : Bytes
  pub anchored_at : ℤ
  pub external_time : ℤ
  pub proof : Bytes
  pub reference : Bytes
  pub error : Bytes

-- The three bytes of a dash.
abbrev pub dash : Bytes
dash = 226 ∷ 128 ∷ 148 ∷ []

-- OK
unfoldable pub is_published : AnchorRecord → Bool
unfolding is_empty
is_published a = is_empty a.error

pub record Verification : Type 0 where
  pub anchor : AnchorRecord
  pub matches : Bool
  pub current_hash : Bytes
  pub detail : Bytes

-- The comparison that is given to sort.Slice: the newest anchor first.
abbrev pub is_after : Verification → Verification → Bool
is_after v w = ltb_ℤ w.anchor.through_seq v.anchor.through_seq

-- `date` is the day of a time, as a text; `current` is what the chain has at a sequence number.
module _ (date : ℤ → Bytes) (current : ℤ → Option Bytes) where
  -- A published anchor, by what the chain has.
  unfoldable pub compare_hash : AnchorRecord → Option Bytes → Verification
  unfolding eq_bytes integer
  compare_hash a none = record {
    anchor = a;
    matches = false;
    current_hash = [];
    detail =
        codes "Sequence "
        ++ integer a.through_seq
        ++ codes " was anchored on "
        ++ date a.anchored_at
        ++ codes " but the chain no longer reaches it. Anchored history has been truncated.";
  }
  compare_hash a (some hash) =
      if eq_bytes hash a.entry_hash
      then record {
        anchor = a;
        matches = true;
        current_hash = hash;
        detail =
            codes "Sequence "
            ++ integer a.through_seq
            ++ codes " still matches the hash anchored on "
            ++ date a.anchored_at
            ++ codes ".";
      }
      else record {
        anchor = a;
        matches = false;
        current_hash = hash;
        detail =
            codes "Sequence "
            ++ integer a.through_seq
            ++ codes " does not match the hash anchored on "
            ++ date a.anchored_at
            ++ codes ". The chain has been rebuilt since it was published "
            ++ dash
            ++ codes " a valid signature on the current chain does not clear this.";
      }

  -- A round of VerifyAgainst.
  unfoldable pub verify_anchor : AnchorRecord → Verification
  unfolding is_published compare_hash
  verify_anchor a =
      if not (is_published a)
      then record {
        anchor = a;
        matches = false;
        current_hash = [];
        detail = codes "This anchor was never published: " ++ a.error;
      }
      else compare_hash a (current a.through_seq)

  -- VerifyAgainst
  unfoldable pub verify_against :
      ((Verification → Verification → Bool) → List Verification → List Verification)
      → List AnchorRecord
      → List Verification
  unfolding verify_anchor
  verify_against sort_slice anchors = sort_slice is_after (map verify_anchor anchors)

pub record Counts : Type 0 where
  pub matching : ℕ
  pub mismatched : ℕ
  pub missing : ℕ
  pub failed : ℕ

pub record Summary : Type 0 where
  pub total : ℕ
  pub counts : Counts
  pub verdict : Bytes

abbrev pub no_counts : Counts
no_counts = record { matching = 0; mismatched = 0; missing = 0; failed = 0 }

abbrev pub count_one : Verification → Counts → Counts
count_one v s =
    if not (is_empty v.anchor.error)
    then record s { failed = s.failed + 1 }
    else (if v.matches
        then record s { matching = s.matching + 1 }
        else (if is_empty v.current_hash
            then record s { missing = s.missing + 1 }
            else record s { mismatched = s.mismatched + 1 }))

-- The loop of Summarise, from the last entry on: the counts are the same.
unfoldable pub count_all : List Verification → Counts
unfolding is_empty
count_all [] = no_counts
count_all (v ∷ vs) = count_one v (count_all vs)

unfoldable pub verdict_of : ℕ → Counts → Bytes
unfolding decimal
verdict_of total s =
    if total == 0
    then codes
        "No checkpoints have been anchored. The ledger is tamper-evident against anyone who can edit the database, but not against anyone who also holds the control signing key."
    else (if ltb 0 s.mismatched || ltb 0 s.missing
        then decimal (s.mismatched + s.missing)
          ++ codes
              " anchored checkpoints no longer match the chain. This is what a rebuilt ledger looks like; investigate before trusting any recent evidence."
        else (if s.matching == 0
            then codes
                "Every anchoring attempt failed, so nothing is published externally. Fix the targets "
              ++ dash
              ++ codes " unpublished anchors protect nothing."
            else (if ltb 0 s.failed
                then decimal s.matching
                  ++ codes " anchors match the chain, and "
                  ++ decimal s.failed
                  ++ codes
                      " attempts failed. Check the failing target: gaps in anchoring are gaps in the protection."
                else codes "All "
                  ++ decimal s.matching
                  ++ codes " anchored checkpoints still match the chain.")))

-- Summarise
unfoldable pub summarise : List Verification → Summary
unfolding count_all verdict_of
summarise vs =
    let counts = count_all vs in
    record { total = length vs; counts = counts; verdict = verdict_of (length vs) counts }
