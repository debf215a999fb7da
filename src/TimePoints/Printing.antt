-- ===== src/TimePoints/Printing.antt =====
-- `to_string` with its formats, for time points from the epoch on.
pub mod Fractions
use common_core.Base.{
  ℕ, ◌+◌, ◌-◌, ◌*◌, ◌/◌, ◌%◌, ◌^◌, Bool, true, false, ◌&&◌, List, [], ◌∷◌, ◌++◌, length, select,
  leb, nat_eq, if◌then◌else◌, zero, suc,
}
use common_core.Base.Text.{Text}
use common_core.Base.Int.{ℤ, pos, negsuc}
use common_core.Base.Decimal.{digits}
use common_core.TimePoints.Calendar.{StructTime, Zone, gmtime}

pub data ZoneSuffix : Type 0 where
  no_suffix offset name zulu : ZoneSuffix

-- The arguments of `to_string`
pub record Format : Type 0 where
  pub utc : Bool
  pub time_delimiter : Text
  pub decimals : ℕ
  pub zone_suffix : ZoneSuffix
  pub zone_delimiter : Text

-- `%02d`
abbrev pub two_digits : ℕ → Text
two_digits n = (48 + n / 10) ∷ (48 + n % 10) ∷ []

abbrev pub zeros : ℕ → Text
zeros zero = []
zeros (suc n) = b'0' ∷ zeros n

-- `%0*d`
unfoldable pub padded : ℕ → ℕ → Text
padded width n = zeros (width - length (digits n)) ++ digits n

-- `time.strftime(f"%F{time_delimiter}%T", timestruct)`, for years of four digits
unfoldable pub date_and_time : Text → StructTime → Text
date_and_time delimiter t =
    digits t.year
    ++ (b'-'
        ∷ (two_digits t.month
            ++ (b'-'
                ∷ (two_digits t.day
                    ++ (delimiter
                        ++ (two_digits t.hour
                            ++ (b':' ∷ (two_digits t.minute ++ (b':' ∷ two_digits t.second)))))))))

-- `".%0*d" % (decimals, (10**decimals) * fraction)`: `shown` is the whole number that `%d` makes of the
-- product of floating-point numbers, for these decimals and this time.
unfoldable pub fraction_text : (ℕ → ℕ → ℕ) → ℕ → ℕ → Text
unfolding padded
fraction_text shown decimals t =
    if nat_eq decimals 0 then [] else b'.' ∷ padded decimals (shown decimals t)

-- `tz_offset(timestruct, is_utc)`
unfoldable pub tz_offset : Zone → StructTime → Bool → ℤ
tz_offset z t is_utc = if is_utc then pos 0 else if t.is_dst then z.altzone else z.timezone

-- `"%+03d%02d" % (-offset / 3600, (-offset % 3600) / 60)`
unfoldable pub offset_text : ℤ → Text
offset_text (pos o) =
    (if leb 3600 o then b'-' else b'+')
    ∷ (two_digits (o / 3600) ++ two_digits ((3600 - o % 3600) % 3600 / 60))
offset_text (negsuc o) = b'+' ∷ (two_digits ((o + 1) / 3600) ++ two_digits ((o + 1) % 3600 / 60))

-- `c.isupper()`, of an ASCII character
abbrev is_upper : ℕ → Bool
is_upper c = leb b'A' c && leb c b'Z'

module _ (z : Zone) where
  -- `to_struct_time(utc)`
  unfoldable pub to_struct_time : Bool → ℕ → StructTime
  to_struct_time utc t = if utc then gmtime (t / 1000000000) else z.localtime (t / 1000000000)

  -- The parts after the fraction
  unfoldable pub zone_text : Format → StructTime → Text
  unfolding offset_text tz_offset select
  zone_text f t = elim f.zone_suffix [
    | no_suffix ↦ []
    | offset ↦ f.zone_delimiter ++ offset_text (tz_offset z t f.utc)
    | name ↦
        f.zone_delimiter
        ++ (if f.utc then b'U' ∷ b'T' ∷ b'C' ∷ [] else select is_upper (z.tzname t.is_dst))
    | zulu ↦ if f.utc then f.zone_delimiter ++ b'Z' ∷ [] else []
  ]

  module _ (shown : ℕ → ℕ → ℕ) where
    -- `to_string(...)`
    unfoldable pub to_string : Format → ℕ → Text
    unfolding to_struct_time date_and_time fraction_text zone_text
    to_string f t =
        let struct = to_struct_time f.utc t in
        date_and_time f.time_delimiter struct
        ++ (fraction_text shown f.decimals t ++ zone_text f struct)

    -- `to_iso8601_string(decimals)`
    unfoldable pub to_iso8601_string : ℕ → ℕ → Text
    unfolding to_string
    to_iso8601_string decimals t =
        to_string
          (record {
            utc = true;
            time_delimiter = b'T' ∷ [];
            decimals = decimals;
            zone_suffix = zulu;
            zone_delimiter = [];
          })
          t
