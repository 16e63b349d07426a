-- ===== src/Lib.antt =====
-- CveDeck scans hosts over SSH and WinRM, matches what they run against public vulnerability
-- data and shows the findings in a dashboard. This library models the decision code of its
-- backend (backend/app).
--
-- The parts are:
--
-- - Prelude: names passed on from the libraries; Boolean tests, lists, integers, text as code
--   points, the lexicographic order. Floats: the float operations that the severity code uses,
--   as a record that a client takes; Floats/Sample.antt is a value of it.
-- - Severity: `Severity`, `SEVERITY_RANK` (backend/app/enums.py), `derive_severity`,
--   `resolve_severity` (backend/app/scanner/matcher.py).
-- - Matcher: `Matcher.match` of backend/app/scanner/matcher.py. It asks two clients, which are
--   parameters, and gives each record a severity by Severity.
-- - Cvss: backend/app/scanner/cvss.py. Cvss.antt splits a vector, V3.antt is
--   `cvss_v3_base_score`; Scores.antt and Maxima.antt are the tables of v4.0, V4.antt its
--   metrics and MacroVector, Interpolate.antt the search and the score. The tables keep tenths
--   and hundredths as numbers; the float operations are an argument (Floats/Arithmetic.antt),
--   of which nothing is assumed.
-- - Debian: backend/app/scanner/debian_version.py, dpkg's version order. The outer loop takes
--   fuel, the number of characters of both texts; each round reads one at least, so the fuel is
--   enough.
-- - Rpm: backend/app/scanner/rpm_version.py, rpm's version order; its outer loop takes fuel in
--   the same way.
-- - PackageId: backend/app/package_identifier.py, the text that identifies a finding's package
--   and the note on its fix, read back by functions that write its regular expressions out;
--   Kernel.antt and Running.antt are its tests on kernel names. Notes.antt has the notes as
--   osv_client.py writes them.
-- - Releases: backend/app/scanner/releases.py, the distribution releases that ecosystem names
--   stand for; Names.antt is `release_display_name`, Queries.antt `release_query_ecosystems`.
-- - Osv: `fix_suffix` of backend/app/scanner/osv_client.py. It chooses a note (`fix_note`) from
--   a record's entries and puts it in the words of PackageId/Notes.antt, which `parse_fix`
--   reads; Honest.antt says what backs a note. Advisories.antt is `_advisories_for_host`,
--   without the rating. Sources.antt is the part of the client that asks by source package and
--   reports by binary.
-- - Kernels: `split_kernel_findings` of backend/app/services/kernel.py; its dictionaries are
--   Prelude/Dicts.antt.
-- - Engine: the scan of one host in backend/app/scanner/engine.py, `_scan_target` and
--   `_scan_one`, as a list of writes and an outcome. It matches by Matcher and splits by
--   Kernels; what the host, the store, the feeds and the enrichment do is an argument.
-- - UbuntuKernel: `check_ubuntu_kernel` of backend/app/services/ubuntu_kernel.py, with
--   `codename_for` and `affecting` of backend/app/scanner/ubuntu_kernel_feed.py. Versions are
--   compared by Debian.
-- - UpstreamKernel: `upstream_affecting` of backend/app/scanner/kernel_feeds.py, which decides
--   by a kernel's own series.
-- - Findings: `save_findings` and `record_scan_run` of backend/app/data/repository.py
--   (Findings.antt, Findings/Runs.antt), as `_record_scan_status` of backend/app/api/wiring.py
--   calls them. Tables are lists of rows; a delete by primary key is a delete of those rows.
-- - Feeds: backend/app/services/enrichment.py. Feeds.antt refreshes one feed, Refreshing.antt
--   is `refresh_all`, Enriching.antt `FindingEnricher` and `refresh_feeds_and_reapply`. What a
--   source answers is an argument, and so is the digest of a catalogue. It enriches and
--   rewrites the rows of Findings.
-- - Accounts: backend/app/auth/service.py. Accounts.antt has the accounts, Sessions.antt the
--   setup code, sessions and API tokens, Requests.antt any run of requests. What is random is
--   an argument, and so are the hash of a token and the functions on passwords.
-- - Throttle: backend/app/auth/throttle.py, the back-off of failed sign-ins. A method is a
--   function from the dictionary to the dictionary; OverflowError is a flag beside it.
-- - ScanJobs: backend/app/services/scan_jobs.py and the batch loop of
--   backend/app/scanner/engine.py. Run.antt is `run_job`, Cancel.antt `cancel_job`, Store.antt
--   the collection of jobs. The hosts of a job are scanned by recursion on their list; what
--   happens at each is an argument. Threads.antt has the two functions as threads that
--   interleave, by moves that end where another thread can come between.
-- - Schedule: backend/app/services/scan_schedule.py. A moment is in microseconds since the year
--   1; the time zone is a function that is an argument. It starts jobs by `create_job` of
--   ScanJobs.
--
-- Text is a list of code points with Python's character classes on ASCII. The throttle's times
-- are whole milliseconds. Not modelled: logging, SQL and HTTP, and the modules that do input
-- and output only.
pub mod Prelude
pub mod Floats
pub mod Severity
pub mod Matcher
pub mod Cvss
pub mod Debian
pub mod Rpm
pub mod Throttle
pub mod ScanJobs
pub mod Schedule
pub mod PackageId
pub mod Releases
pub mod Osv
pub mod Kernels
pub mod Engine
pub mod UbuntuKernel
pub mod UpstreamKernel
pub mod Findings
pub mod Feeds
pub mod Accounts
