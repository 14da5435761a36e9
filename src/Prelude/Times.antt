-- ===== src/Prelude/Times.antt =====
-- `datetime.isoformat` of a time of UTC, as `_utcnow_iso` of src/swarph_cli/gateway/server.py calls it, and
-- the order of texts. A time is the number of microseconds since 1970.
use Prim.Native.Nat.{ℕ, zero, suc, ◌+◌, ◌*◌, ◌-◌, ◌%◌, ◌/◌, Ordering}
use Prim.Native.String.{String, ◌++◌ as join, compare}
use mathlib.Core.Bool.{Bool, true, false}
use mathlib.Core.Path.{◌≡◌, refl}
use swarph_cli.Prelude.Tests.{leb, ◌==◌, if◌then◌else◌, nat_eq}
use swarph_cli.Prelude.Text.{digit}

-- `a <= b`, of texts: by code points.
unfoldable pub text_leb : String → String → Bool
text_leb a b = elim (compare a b) [ Ordering.gt ↦ false | _ ↦ true ]

-- The last `width` decimal digits of a number.
unfoldable pub padded : ℕ → ℕ → String
padded zero n = ""
padded (suc width) n = let high = padded width (n / 10) in join high (digit (n % 10))

-- The day since 1970 as `YYYY-MM-DD`. Years start in March, in eras of 400 of them: `doe` is the day of
-- the era, `yoe` the year of it, `doy` the day of the year and `mp` the month, from 0.
unfoldable pub date_of : ℕ → String
unfolding padded
date_of days =
    let shifted = days + 719468 in
    let doe = shifted % 146097 in
    let yoe = (doe - doe / 1460 + doe / 36524 - doe / 146096) / 365 in
    let doy = doe - (365 * yoe + yoe / 4 - yoe / 100) in
    let mp = (5 * doy + 2) / 153 in
    let day = doy - (153 * mp + 2) / 5 + 1 in
    let month = if leb mp 9 then mp + 3 else mp - 9 in
    let march_year = yoe + 400 * (shifted / 146097) in
    let year = if leb month 2 then march_year + 1 else march_year in
    join (padded 4 year) (join "-" (join (padded 2 month) (join "-" (padded 2 day))))

-- The microseconds are left out where they are 0.
unfoldable pub isoformat : ℕ → String
unfolding date_of padded
isoformat now =
    let seconds = now / 1000000 in
    let micros = now % 1000000 in
    let fraction = if micros == 0 then "" else join "." (padded 6 micros) in
    join (date_of (seconds / 86400)) (
      join "T" (
        join (padded 2 (seconds / 3600 % 24)) (
          join ":" (
            join (padded 2 (seconds / 60 % 60))
              (join ":" (join (padded 2 (seconds % 60)) (join fraction "+00:00")))))))

epoch : isoformat 0 ≡ "1970-01-01T00:00:00+00:00"
unfolding isoformat
epoch = refl

leap_day : isoformat 1709210096000789 ≡ "2024-02-29T12:34:56.000789+00:00"
unfolding isoformat
leap_day = refl

new_year : date_of 11323 ≡ "2001-01-01"
unfolding date_of
new_year = refl
