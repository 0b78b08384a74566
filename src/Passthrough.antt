-- ===== src/Passthrough.antt =====
-- mongo-wrapper/src/passthrough.rs: the mongod flags given to the wrapper, and its own flags.
pub mod Merge
mod Tests
use mongo_ha.Base.{
  ltb, leb, ◌==◌, if◌then◌else◌, ltb→lt, lt→ltb, leb→le, le→leb, leb→gt, ltb→ge, ==_iff, tests,
  Bool-cases, Option-cases, and_true, or_false, is_some, is_some_and, or_else, unwrap_or,
  Option_filter, and_then, Option_map, if_elim, All, Any, In, length, any, all, find, filter, count,
  position, length-append, count-le-length, find-eq-some, find-eq-none, any-eq-false, any-eq-true,
  all-eq-true, find_map, filter_map, All-append, All-In, Any-In, In-filter, In-map, List-cases,
  filter_map-append, filter_map-filter, filter-append, All-of_In, filter_map-In, In-filter_map,
  In-append_left, In-append_right, In-append, In-guard, guard-In, append_nil, append_assoc,
  Duration, Instant, nanos_per_sec, from_secs, from_millis, as_secs, duration_since, bit_xor-zero,
  bit_xor_refl, bit_or-zero, ℕ, zero, suc, ◌+◌, ◌-◌, ◌*◌, ◌/◌, ◌%◌, ◌^◌, bit_or, bit_xor, ◌≤◌, ◌<◌,
  min, max, String, ◌≡◌, refl, sym, ap, ◌∙◌, ◌≢◌, ◌↔◌, ◌⊎◌, inl, inr, Bool, true, false, not, ◌&&◌,
  ◌||◌, Option, none, some, List, [], ◌∷◌, ◌++◌, map, arith,
}
use mongo_ha.Text.{Text, codes, is_empty, text_eq, text_eq_refl, text_eq_iff, text_eq-ne}
use mongo_ha.Text.Trim.{is_whitespace, trim_start, trim, NoWhitespace, trim_id}
use mongo_ha.Text.Split.{
  split, first_piece, split_once, rsplit_once, split_two, split_once-eq-some, split_once_join,
}
use mongo_ha.Text.Number.{
  is_digit, digits_from, digits, unsigned_digits, parse_unsigned, decimal_within, decimal,
}

-- `strip_prefix("--")`, or else `strip_prefix('-')`.
unfoldable pub strip_dashes : Text → Option Text
strip_dashes [] = none
strip_dashes (c ∷ []) = if c == b'-' then some [] else none
strip_dashes (c ∷ d ∷ s) = if c == b'-' then (if d == b'-' then some s else some (d ∷ s)) else none

abbrev pub named : Text → Option Text
named [] = none
named (c ∷ s) = if is_digit c then none else some (first_piece b'=' (c ∷ s))

unfoldable pub option_name : Text → Option Text
unfolding strip_dashes
option_name token = and_then (strip_dashes token) named

abbrev pub is_option : Text → Text → Bool
is_option name token = is_some_and (option_name token) (λ n. text_eq n name)

unfoldable pub args_set : List Text → Text → Bool
args_set args name = any (is_option name) args

abbrev pub next_value : List Text → Option Text
next_value [] = none
next_value (v ∷ rest) = some v

abbrev pub value_in : Text → List Text → Option Text
value_in token rest = elim (split_once b'=' token) [ some (n, v) ↦ some v | none ↦ next_value rest ]

unfoldable pub arg_value : List Text → Text → Option Text
arg_value [] name = none
arg_value (t ∷ rest) name =
    let later = arg_value rest name in if is_option name t then value_in t rest else later

-- The option is set by the args, or conflicts with one that they set.
unfoldable pub overridden : List Text → Text → Bool
unfolding args_set
overridden args name =
    args_set args name
    || (text_eq name (codes "bind_ip_all") && args_set args (codes "bind_ip"))
    || (text_eq name (codes "bind_ip") && args_set args (codes "bind_ip_all"))

-- What becomes of a token, with the one that follows it: it is no option, or it is one with the
-- next token as its value, or without.
pub data Shape : Type 0 where
  plain : Shape
  paired bare : Text → Shape

abbrev pub shape_from : Option Text → Option Text → Shape
shape_from none next = plain
shape_from (some name) next =
    if is_some_and next (λ n. not (is_some (option_name n))) then paired name else bare name

abbrev pub shape_of : Text → Option Text → Shape
shape_of flag next = shape_from (option_name flag) next

unfoldable pub merge_own_flags : List Text → List Text → List Text
unfolding overridden option_name
merge_own_flags [] args = []
merge_own_flags (flag ∷ []) args = elim (shape_of flag none) [
  | plain ↦ flag ∷ []
  | paired name ↦ []
  | bare name ↦ if overridden args name then [] else flag ∷ []
]
merge_own_flags (flag ∷ next ∷ rest) args = elim (shape_of flag (some next)) [
  | plain ↦ flag ∷ merge_own_flags (next ∷ rest) args
  | paired name ↦
      let later = merge_own_flags rest args in
      if overridden args name then later else flag ∷ next ∷ later
  | bare name ↦
      let later = merge_own_flags (next ∷ rest) args in
      if overridden args name then later else flag ∷ later
]

unfoldable pub passthrough_port : List Text → Option ℕ
unfolding arg_value
passthrough_port args =
    and_then (arg_value args (codes "port")) (λ v. parse_unsigned (2 ^ 16) (trim v))

unfoldable pub passthrough_dbpath : List Text → Option Text
unfolding arg_value
passthrough_dbpath args =
    Option_filter (λ v. not (is_empty v)) (Option_map trim (arg_value args (codes "dbpath")))
