-- ===== src/KernelCompat.antt =====
-- mongo-wrapper/src/kernel_compat.rs: the kernels on which mongod runs with glibc's rseq, and the
-- tunables it then gets. Tunables are bytes.
pub mod Tunables
mod Tests
use mongo_ha.Base.{
  ltb, leb, ◌==◌, if◌then◌else◌, ltb→lt, lt→ltb, leb→le, le→leb, leb→gt, ltb→ge, ==_iff, tests,
  Bool-cases, Option-cases, and_true, or_false, is_some, is_some_and, or_else, unwrap_or,
  Option_filter, and_then, Option_map, if_elim, All, Any, In, length, any, all, find, filter, count,
  position, length-append, count-le-length, find-eq-some, find-eq-none, any-eq-false, any-eq-true,
  all-eq-true, find_map, filter_map, All-append, All-In, Any-In, In-filter, In-map, List-cases,
  filter_map-append, filter_map-filter, filter-append, All-of_In, filter_map-In, In-filter_map,
  In-append_left, In-append_right, In-append, In-guard, guard-In, append_nil, append_assoc,
  Duration, Instant, nanos_per_sec, from_secs, from_millis, as_secs, duration_since, bit_xor-zero,
  bit_xor_refl, bit_or-zero, ℕ, zero, suc, ◌+◌, ◌-◌, ◌*◌, ◌/◌, ◌%◌, ◌^◌, bit_or, bit_xor, ◌≤◌, ◌<◌,
  min, max, String, ◌≡◌, refl, sym, ap, ◌∙◌, ◌≢◌, ◌↔◌, ◌⊎◌, inl, inr, Bool, true, false, not, ◌&&◌,
  ◌||◌, Option, none, some, List, [], ◌∷◌, ◌++◌, map, arith,
}
use mongo_ha.Text.{Text, codes, is_empty, text_eq, text_eq_refl, text_eq_iff, text_eq-ne}
use mongo_ha.Text.Trim.{is_whitespace, trim_start, trim, NoWhitespace, trim_id}
use mongo_ha.Text.Split.{
  split, first_piece, split_once, rsplit_once, split_join_step, split_lacks, split_one, split_two,
  split_once-eq-some, split_once_join, join, split-join,
}
use mongo_ha.Text.Number.{
  is_digit, digits_from, digits, unsigned_digits, parse_unsigned, decimal_within, decimal,
}

abbrev pub Version : Type 0
Version = ℕ × ℕ × ℕ

-- `<` on triples.
abbrev pub version_ltb : Version → Version → Bool
version_ltb (a, b, c) (x, y, z) = ltb a x || (a == x && (ltb b y || (b == y && ltb c z)))

abbrev pub first_affected : Version
first_affected = (6, 19, 0)

abbrev pub first_fixed : Version
first_fixed = (7, 0, 14)

-- `(first_affected..first_fixed).contains`
unfoldable pub in_affected_range : Version → Bool
in_affected_range v = not (version_ltb v first_affected) && version_ltb v first_fixed

-- The digits that a text starts with, and the rest.
unfoldable pub span_digits : Text → Text × Text
span_digits [] = ([], [])
span_digits (c ∷ s) =
    let (digits, rest) = span_digits s in
    let stop : Text × Text = ([], c ∷ s) in if is_digit c then (c ∷ digits, rest) else stop

abbrev pub tail_accepted : Text → Bool
tail_accepted [] = true
tail_accepted (c ∷ s) = c == b'-' || c == b'+' || c == b'.'

abbrev pub parse_u32 : Text → Option ℕ
parse_u32 s = parse_unsigned (2 ^ 32) s

abbrev pub version_of : Option ℕ → Option ℕ → Option ℕ → Option Version
version_of (some major) (some minor) (some patch) = some (major, minor, patch)
version_of _ _ _ = none

-- `splitn(3, '.')`: the third part is the whole rest.
unfoldable pub kernel_version : Text → Option Version
unfolding span_digits
kernel_version release = and_then (split_once b'.' (trim release)) (λ (major, rest).
    and_then (split_once b'.' rest) (λ (minor, tail).
      let (digits, after) = span_digits tail in
      if tail_accepted after
      then version_of (parse_u32 major) (parse_u32 minor) (parse_u32 digits)
      else none))

unfoldable pub affected_kernel : Text → Option Bool
unfolding kernel_version in_affected_range
affected_kernel release = Option_map in_affected_range (kernel_version release)

abbrev pub rseq_key : Text
rseq_key = codes "glibc.pthread.rseq="

abbrev pub rseq_fallback : Text
rseq_fallback = codes "glibc.pthread.rseq=1"

unfoldable pub starts_with : Text → Text → Bool
starts_with [] s = true
starts_with (c ∷ p) [] = false
starts_with (c ∷ p) (d ∷ s) = c == d && starts_with p s

abbrev pub is_kept : Text → Bool
is_kept entry = not (is_empty entry) && not (starts_with rseq_key entry)

abbrev pub kept_entries : Option Text → List Text
kept_entries inherited = filter is_kept (split b':' (unwrap_or inherited []))

unfoldable pub with_rseq_fallback : Option Text → Text
unfolding starts_with
with_rseq_fallback inherited = join b':' (kept_entries inherited ++ rseq_fallback ∷ [])

-- The tunables that the child gets, `none` to leave them: what procfs answers, and what is inherited.
unfoldable pub configure_mongod : Option Text → Option Text → Option Text
unfolding affected_kernel with_rseq_fallback
configure_mongod release inherited =
    if is_some_and (and_then release affected_kernel) (λ a. a)
    then some (with_rseq_fallback inherited)
    else none
