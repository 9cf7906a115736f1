-- ===== src/Versions/Tests.antt =====
-- Release versions at concrete inputs.
use grasshopper.Versions.RoundTrip.{Fits, parse_codes_iff}
use grasshopper.Versions.{parse_codes, parse_version, compare_versions, print_codes, Version, newer}
use grasshopper.Base.{codes, ◌≡◌, refl, none, some, ◌↔◌}

abbrev release : Version
release = record { major = 1; minor = 20; patch = 300 }

parses : parse_version "1.20.300" ≡ some release
unfolding parse_version
parses = refl

refuses_leading_zero : parse_version "1.02.3" ≡ none
unfolding parse_version
refuses_leading_zero = refl

refuses_sign : parse_version "1.+2.3" ≡ none
unfolding parse_version
refuses_sign = refl

client_takes_v : compare_versions "v1.20.300" "1.3.0" ≡ some newer
unfolding compare_versions
client_takes_v = refl

parse_codes_iff_example :
    (parse_codes (codes "1.20.300") ≡ some release)
    ↔ ((print_codes release ≡ codes "1.20.300") × Fits release)
parse_codes_iff_example = parse_codes_iff (codes "1.20.300") release
