-- ===== src/HealthAuth.antt =====
-- mongo-wrapper/src/health_auth.rs: HTTP Basic authentication of the route that changes state.
pub mod Carried
pub mod Basic
mod Tests
use mongo_ha.Base.{
  ltb, leb, ◌==◌, if◌then◌else◌, ltb→lt, lt→ltb, leb→le, le→leb, leb→gt, ltb→ge, ==_iff, tests,
  Bool-cases, Option-cases, and_true, or_false, is_some, is_some_and, or_else, unwrap_or,
  Option_filter, and_then, Option_map, if_elim, All, Any, In, length, any, all, find, filter, count,
  position, length-append, count-le-length, find-eq-some, find-eq-none, any-eq-false, any-eq-true,
  all-eq-true, find_map, filter_map, All-append, All-In, Any-In, In-filter, In-map, List-cases,
  filter_map-append, filter_map-filter, filter-append, All-of_In, filter_map-In, In-filter_map,
  In-append_left, In-append_right, In-append, In-guard, guard-In, append_nil, append_assoc,
  Duration, Instant, nanos_per_sec, from_secs, from_millis, as_secs, duration_since, bit_xor-zero,
  bit_xor_refl, bit_or-zero, ℕ, zero, suc, ◌+◌, ◌-◌, ◌*◌, ◌/◌, ◌%◌, ◌^◌, bit_or, bit_xor, ◌≤◌, ◌<◌,
  min, max, String, ◌≡◌, refl, sym, ap, ◌∙◌, ◌≢◌, ◌↔◌, ◌⊎◌, inl, inr, Bool, true, false, not, ◌&&◌,
  ◌||◌, Option, none, some, List, [], ◌∷◌, ◌++◌, map, arith,
}
use mongo_ha.Text.{Text, codes, is_empty, text_eq, text_eq_refl, text_eq_iff, text_eq-ne}
use mongo_ha.Text.Case.{
  to_ascii_lowercase, eq_ignore_ascii_case, eq_ignore_ascii_case_iff, eq_ignore_ascii_case_refl,
  eq_ignore_ascii_case_symm, eq_ignore_ascii_case_trans,
}
use mongo_ha.Text.Trim.{is_whitespace, trim_start, trim, NoWhitespace, trim_id}
use mongo_ha.Text.Split.{
  split, first_piece, split_once, rsplit_once, split_two, split_once-eq-some, split_once_join,
}
use mongo_ha.Text.Utf8.{
  Bytes, is_scalar, char_bytes, as_bytes, Decoder, start, inside, lead_byte, next_bits, decode_step,
  emit, decode_from, from_utf8, from_utf8-as_bytes, as_bytes_inj,
}

pub record Credential : Type 0 where
  pub username : Text
  pub password : Text

-- The configured password mirrors the root password of this boot, and the pin differs from it.
unfoldable pub follows_pin : Credential → Text → Text → Bool
follows_pin expected root pin =
    text_eq expected.password (trim root) && not (text_eq pin expected.password)

unfoldable pub live_credential : Credential → Option Text → Option Text → Credential
unfolding follows_pin
live_credential expected (some root) (some pin) =
    if follows_pin expected root pin
    then record { username = expected.username; password = pin }
    else expected
live_credential expected none pinned = expected
live_credential expected (some root) none = expected

-- `a.get(i).copied().unwrap_or(0)`
unfoldable pub byte_at : Bytes → ℕ → ℕ
byte_at [] i = 0
byte_at (b ∷ s) zero = b
byte_at (b ∷ s) (suc i) = byte_at s i

-- The loop over the `n` positions from `i` on.
unfoldable pub accumulate : Bytes → Bytes → ℕ → ℕ → ℕ → ℕ
unfolding byte_at
accumulate a b zero i diff = diff
accumulate a b (suc n) i diff =
    accumulate a b n (suc i) (bit_or diff (bit_xor (byte_at a i) (byte_at b i)))

unfoldable pub constant_time_eq : Bytes → Bytes → Bool
unfolding accumulate
constant_time_eq a b =
    accumulate a b (max (length a) (length b)) 0 (bit_xor (length a) (length b)) == 0

-- `split_once(char::is_whitespace)`
unfoldable pub split_once_whitespace : Text → Option (Text × Text)
split_once_whitespace [] = none
split_once_whitespace (c ∷ s) =
    let rest : Option (Text × Text) = elim (split_once_whitespace s) [
      | none ↦ none
      | some (a, b) ↦ some (c ∷ a, b)
    ] in
    if is_whitespace c then some ([], s) else rest

abbrev pub payload_of : Text × Text → Option Text
payload_of (scheme, rest) =
    if eq_ignore_ascii_case scheme (codes "basic")
    then Option_filter (λ p. not (is_empty p)) (some (trim rest))
    else none

unfoldable pub basic_payload : Text → Option Text
unfolding split_once_whitespace
basic_payload value = and_then (split_once_whitespace (trim value)) payload_of

unfoldable pub halves_eq : Credential → Text × Text → Bool
halves_eq expected (username, password) =
    let user_ok = constant_time_eq (as_bytes username) (as_bytes expected.username) in
    let pass_ok = constant_time_eq (as_bytes password) (as_bytes expected.password) in
    user_ok && pass_ok

abbrev pub decoded_halves : Option Bytes → Option (Text × Text)
decoded_halves bytes = and_then (and_then bytes from_utf8) (split_once b':')

-- What the layer in front of a route does: pass the request on, or answer 401.
pub data Verdict : Type 0 where
  next_run refused : Verdict

-- The header value's `to_str` and the base64 decoder are other crates'.
module _ {HeaderValue : Type 0} (to_str : HeaderValue → Option Text)
    (base64_decode : Text → Option Bytes) where
  -- The bytes that a header carries.
  unfoldable pub decoded_bytes : Option HeaderValue → Option Bytes
  decoded_bytes header =
      and_then header
        (λ v. and_then (to_str v) (λ value. and_then (basic_payload value) base64_decode))

  unfoldable pub authorized : Credential → Option HeaderValue → Bool
  unfolding decoded_bytes halves_eq
  authorized expected header =
      unwrap_or (Option_map (halves_eq expected) (decoded_halves (decoded_bytes header))) false

  unfoldable pub require :
      Option Credential → Option Text → Option Text → Option HeaderValue → Verdict
  unfolding live_credential authorized
  require none env_root pinned header = next_run
  require (some expected) env_root pinned header =
      if authorized (live_credential expected env_root pinned) header then next_run else refused
