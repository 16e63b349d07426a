-- ===== src/Releases/Samples.antt =====
-- The queries of some hosts, each of which names a release of the host.
use cvedeck.Prelude.{◌≡◌, refl, List, [], ◌∷◌}
use cvedeck.Prelude.Text.{
  Text, codes, text_eq, text_is_digit, to_int_from, strip, lstrip, partition, strip_prefix,
}
use cvedeck.Releases.{
  digits_behind, dotted, ubuntu_version, behind_stream, release_in, parse_release, host_releases,
}
use cvedeck.Releases.Names.{red_hat_product, template_of, title_from, release_display_name}
use cvedeck.Releases.Queries.{
  decimal_from, ubuntu_ecosystem, joined_key, queries_of_releases, each_once,
  release_query_ecosystems,
}

queries : Text → List Text
unfolding release_query_ecosystems each_once queries_of_releases joined_key ubuntu_ecosystem
    decimal_from host_releases parse_release release_in behind_stream ubuntu_version dotted
    digits_behind text_eq text_is_digit to_int_from strip lstrip partition strip_prefix
queries = release_query_ecosystems

ubuntu_queries : queries (codes "Ubuntu:24.04:LTS") ≡ codes "Ubuntu:24.04:LTS" ∷ []
unfolding queries
ubuntu_queries = refl

interim_queries : queries (codes "Ubuntu:25.10") ≡ codes "Ubuntu:25.10" ∷ []
unfolding queries
interim_queries = refl

alma_queries :
    queries (codes "AlmaLinux:9")
    ≡ codes "AlmaLinux:9"
      ∷ codes "Red Hat:enterprise_linux:9::baseos"
      ∷ codes "Red Hat:enterprise_linux:9::appstream"
      ∷ codes "Red Hat:enterprise_linux:9::crb"
      ∷ []
unfolding queries
alma_queries = refl

alpine_queries : queries (codes "Alpine:v3.20") ≡ codes "Alpine:v3.20" ∷ []
unfolding queries
alpine_queries = refl

name_of : Text → Text
unfolding release_display_name title_from template_of red_hat_product parse_release release_in
    behind_stream ubuntu_version dotted digits_behind text_eq text_is_digit to_int_from strip lstrip
    partition strip_prefix
name_of = release_display_name

eus_name : name_of (codes "Red Hat:rhel_eus:9.4::appstream") ≡ codes "RHEL 9.4 EUS"
unfolding name_of
eus_name = refl

unlisted : name_of (codes "Red Hat:rhel_els:7") ≡ codes "RHEL 7 ELS"
unfolding name_of
unlisted = refl
