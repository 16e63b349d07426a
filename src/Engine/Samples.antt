-- ===== src/Engine/Samples.antt =====
-- A host whose OSV query fails, and one that refuses the sign-in.
use cvedeck.Prelude.{ℕ, ◌≡◌, refl, true, none, some, [], List, all}
use cvedeck.Prelude.Text.{codes}
use cvedeck.Floats.Sample.{whole_tenths}
use cvedeck.Matcher.{outage}
use cvedeck.ScanJobs.{auth_failure}
use cvedeck.Kernels.{FindingInput}
use cvedeck.Engine.{
  Error, auth_error, other_error, Result, got, raises, Host, scan_target, scan_one,
}
use cvedeck.Engine.Storing.{
  resolves_nothing, with_enricher, scan_target-resolves_nothing, scan_target-enricher,
}

abbrev defect : Error
defect = record { kind = other_error; type_name = codes "KeyError"; text = [] }

abbrev refused : Error
refused = record { kind = auth_error; type_name = codes "AuthError"; text = codes "bad password" }

abbrev reachable : Host ℕ
reachable = record {
  machine_id = "m1";
  collector = got _;
  credentials = got _;
  inventory = got (record { packages = [] });
  nvd = none;
  osv = some outage;
  defect = defect;
  ubuntu = λ inventory. got none;
  feeds = λ inventory. got none;
  enricher = none;
  save_inventory = got _;
  save_findings = got none;
  record_unfixed = got _;
}

abbrev locked : Host ℕ
locked = record reachable { inventory = raises refused }

-- A host that refuses the sign-in
refused_status : (scan_target whole_tenths locked).1.status ≡ auth_failure
unfolding scan_target scan_one
refused_status = refl

scan_target-resolves_nothing_example :
    all resolves_nothing (scan_target whole_tenths reachable).0 ≡ true
scan_target-resolves_nothing_example = scan_target-resolves_nothing whole_tenths reachable refl

abbrev fails : List FindingInput → Result (List FindingInput)
fails findings = raises defect

scan_target-enricher_example :
    scan_target whole_tenths (with_enricher reachable (some fails))
    ≡ scan_target whole_tenths (with_enricher reachable none)
scan_target-enricher_example =
    scan_target-enricher whole_tenths reachable fails (λ findings. defect) (λ findings. refl)
