-- ===== src/Vuln.antt =====
-- internal/vuln: version ordering and the matching of a host's packages against advisories.
pub mod Dpkg
pub mod Rpm
pub mod Compare
pub mod Details
pub mod Match
pub mod Tests
