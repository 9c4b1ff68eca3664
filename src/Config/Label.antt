-- ===== src/Config/Label.antt =====
-- The label test of pkg/model/config/schema.go: a regular expression, and a matcher for it.
pub mod Correct
use old_broker_repo.Prelude.{
  ℕ, Text, List, [], ◌∷◌, Bool, true, false, ◌&&◌, ◌||◌, length, leb, byte_eq, if◌then◌else◌,
}

-- What the label's expression uses of Go's regexp package. An optional part is `alt eps`.
pub data Regex : Type 0 where
  void eps : Regex
  class : (ℕ → Bool) → Regex
  alt seq : Regex → Regex → Regex
  star : Regex → Regex

nullable : Regex → Bool
nullable void = false
nullable eps = true
nullable (class p) = false
nullable (alt r s) = nullable r || nullable s
nullable (seq r s) = nullable r && nullable s
nullable (star r) = true

-- What is left to match after the byte `c`.
deriv : ℕ → Regex → Regex
unfolding nullable
deriv c void = void
deriv c eps = void
deriv c (class p) = if p c then eps else void
deriv c (alt r s) = alt (deriv c r) (deriv c s)
deriv c (seq r s) = if nullable r then alt (seq (deriv c r) s) (deriv c s) else seq (deriv c r) s
deriv c (star r) = seq (deriv c r) (star r)

-- `MatchString` of an expression between `^` and `$`.
match_string : Regex → Text → Bool
unfolding deriv nullable
match_string r [] = nullable r
match_string r (c ∷ s) = match_string (deriv c r) s

-- [a-z0-9]
abbrev pub is_alnum : ℕ → Bool
is_alnum c = (leb b'a' c && leb c b'z') || (leb b'0' c && leb c b'9')

-- [-a-z0-9]
abbrev pub is_alnum_or_dash : ℕ → Bool
is_alnum_or_dash c = byte_eq c b'-' || is_alnum c

-- [a-z0-9]([-a-z0-9]*[a-z0-9])?
abbrev dns1123_label_rex : Regex
dns1123_label_rex =
    seq (class is_alnum) (alt eps (seq (star (class is_alnum_or_dash)) (class is_alnum)))

abbrev dns1123_label_max_length : ℕ
dns1123_label_max_length = 63

unfoldable pub is_dns1123_label : Text → Bool
unfolding match_string
is_dns1123_label value =
    leb (length value) dns1123_label_max_length && match_string dns1123_label_rex value
