-- ===== src/Lib.antt =====
-- DefendSec: version ordering, advisory matching, exposure ranking, the audit chain and
-- the forwarding of alerts.
--
-- The control plane receives a host's packages from its agent, matches them against the ranges that
-- distributions publish, ranks what it finds for the operator, and records what the operators do in a
-- log that cannot be changed unnoticed. The parts follow the packages of the repository:
--
--   Prelude      shared: numbers, comparisons (Prelude/Cmp), texts (Prelude/Text), signed integers.
--   Vuln/Dpkg    internal/vuln/dpkg.go: dpkgVerRevCmp is dpkg_ver_rev_cmp (one round of its outer loop
--                is round), ParseDpkg is parse_dpkg, CompareDpkg is compare_dpkg. Key is what a
--                component is ordered by, Order the loop, Preorder the comparison of versions.
--   Vuln/Rpm     internal/vuln/rpm.go: rpmVerCmp is rpm_ver_cmp, CompareRPM is compare_rpm.
--   Vuln/Compare internal/vuln/compare.go and vuln.go: Compare is compare_versions, Assess is assess.
--   Vuln/Match   internal/vuln/match.go: the data, rangeAppliesTo, versionFor; judge in Match/Judge,
--                addFinding in Match/Merge, NormalizeDistro in Match/Host. The ranges are attached to
--                the packages in Match/Attach, and Match itself is match_host of Match/Run.
--                MatchWindows of windows.go in Match/Windows, with the store as a parameter.
--                eolFinding of eol.go is eol_finding in Match/Eol, assessRepoHealth of repohealth.go is
--                assess_repo_health in Match/Repos. Details has the records that other kinds of
--                findings carry.
--   Exposure     internal/exposure/rank.go: Band is band, effective is effective, Compare is
--                compare_items.
--   AuditChain   internal/auditchain/chain.go: VerifyFrom is verify_from, Verify is verify,
--                VerifyAgainstCheckpoint is verify_against_checkpoint.
--   Forward      internal/forward/forward.go: Send is send, the worker's flush is flush, record is
--                record_outcome. Queue has senders and the worker as interleaved steps.
--   Lifecycle    internal/lifecycle/assess.go: StageOf is stage_of, cmpCycle is cmp_cycle, upgradePath is
--                upgrade_path; Upgrade has what it chooses. Report is Finding and reason. Assess of
--                assess.go is assess_host in Lifecycle/Assess, Map of mapping.go is map_package in
--                Lifecycle/Mapping. Origin is origin.go, with the markers of third-party builds as a
--                parameter.
--   RepoHealth   internal/repohealth/types.go and assess.go: Assess is assess_report, assessRepo is
--                assess_repo (RepoHealth/Problems), Highest is highest, Fix is fix (RepoHealth/Advice).
--   Sign         internal/sign/sign.go and ack.go: Canonical is canonical_command, Verify is
--                verify_command, CanonicalAck is canonical_ack, blobMessage is blob_message.
--   Identity     internal/identity/totp.go: VerifyTOTP is verify_totp, totpCode is totp_code; of
--                session.go the names of accounts.
--   Anchor       internal/anchor/anchor.go: VerifyAgainst is verify_against, Summarise is summarise.
--   CommandLog   internal/cmdlog/cmdlog.go: Append is append, Update is update, applyRetention is
--                apply_retention, Pending is pending, List is list_commands.
--
-- How they interact: match_host asks the store for the ranges of a host's packages, judges each
-- advisory on those that are attached, and adds the findings of Lifecycle/Assess and of RepoHealth,
-- which take the same packages and the report of the same host. The matcher (Match/Judge) compares
-- versions only by compare_versions, which chooses between the orderings of Dpkg and Rpm; what it finds
-- is ranked by Exposure.
--
-- A string is the list of its bytes, and an index into it the bytes from there on. The functions of
-- strings and unicode that the code calls are those of Go on ASCII text. A Go int is an integer
-- without bound where only differences of bytes, lengths and small ranks are computed; strconv.Atoi
-- fails outside of 64 bits. The times of signed commands and the counters of one-time passwords are
-- integers without bound, where the source has int64: only a time near the ends of the range
-- differs, and there the wrap-around of a difference or a sum of Verify makes the source reject.
-- Scores are numbers of small units and dates are numbers or texts, since they are only compared.
--
-- Fuel: the outer loops of dpkgVerRevCmp and rpmVerCmp run on the sum of both lengths and one. Each
-- round takes a byte from a side that has one, unless a version holds a NUL byte (Dpkg), so this is
-- enough. `none` is a comparison that does not return. judge_loop and verify_loop recurse on their
-- lists.
--
-- Not modelled: network and database access, rendering, the collectors on a host and their parsers,
-- the generated protocol code and the console. Parameters are SHA-256, Ed25519 and base64
-- of AuditChain; the checks of signatures, SHA-256 and base64 of Sign, HMAC-SHA1 and base32 of Identity;
-- JSON, the parsing of times and the calendar of CommandLog; the dates of Anchor; the advisory
-- store and the regular expressions, the rendering of times and SHA-256 of the matcher;
-- sort.Slice of both.
pub mod Anchor
pub mod AuditChain
pub mod CommandLog
pub mod Exposure
pub mod Forward
pub mod Identity
pub mod Lifecycle
pub mod Prelude
pub mod RepoHealth
pub mod Sign
pub mod Vuln
