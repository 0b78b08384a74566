-- ===== src/Fcv/Tests.antt =====
-- Upgrades on concrete versions.
use mongo_ha.Base.{◌≡◌, refl, ◌↔◌, true, none, some, List, [], ◌∷◌, arith}
use mongo_ha.Text.{codes}
use mongo_ha.Text.Split
use mongo_ha.Text.Trim
use mongo_ha.Text.Number
use mongo_ha.Fcv.{
  Fcv, standalone, primary, not_primary, MemberSeries, up_to_date, raise_to, parse_series,
  series_text, decide, raise,
}
use mongo_ha.Fcv.Series.{parse_series-series_text, raised-up_to_date}
use mongo_ha.Fcv.Raise.{CanRaise, decide-raise_iff}

release_candidate : parse_series (codes "8.3.1-rc0") ≡ some (8, 3)
unfolding parse_series Split.split Trim.trim Number.parse_unsigned
release_candidate = refl

abbrev behind_version : Fcv
behind_version = record { version = codes "8.2"; target = none }

abbrev rolling_members : List MemberSeries
rolling_members =
    record { host = codes "mongo-1"; healthy = true; series = some (codes "8.3") }
    ∷ record { host = codes "mongo-2"; healthy = true; series = some (codes "8.2") }
    ∷ []

decide-raise_iff_example :
    (decide (codes "8.3") behind_version primary rolling_members ≡ raise_to (codes "8.3"))
    ↔ CanRaise (codes "8.3") behind_version primary rolling_members (codes "8.3")
decide-raise_iff_example =
    decide-raise_iff (codes "8.3") behind_version primary rolling_members (codes "8.3")

abbrev raised_version : Fcv
raised_version = record { version = codes "8.3"; target = none }

parse_series-series_text_example : parse_series (series_text (8, 3)) ≡ some (8, 3)
parse_series-series_text_example = parse_series-series_text (8, 3) (omega arith) (omega arith)

raised-up_to_date_example : decide (codes "8.3") raised_version not_primary [] ≡ up_to_date
unfolding decide raise parse_series Split.split Trim.trim Number.parse_unsigned series_text
    Number.decimal mongo_ha.Text.text_eq
raised-up_to_date_example =
    raised-up_to_date (codes "8.3") behind_version raised_version standalone not_primary [] []
      (codes "8.3") refl refl
