-- ===== src/Severity/Samples.antt =====
-- Scores and bands as the feeds publish them.
use cvedeck.Prelude.{◌≡◌, refl, none, some}
use cvedeck.Floats.Sample.{whole_tenths}
use cvedeck.Severity.{critical, unscored, high, derive_severity, resolve_severity}

no_score : resolve_severity whole_tenths none none ≡ some unscored
unfolding resolve_severity
no_score = refl

is_high : derive_severity whole_tenths 75 ≡ some high
unfolding derive_severity
is_high = refl

is_critical : derive_severity whole_tenths 98 ≡ some critical
unfolding derive_severity
is_critical = refl
