-- ===== src/Telemetry.antt =====
-- common/src/telemetry.rs: the events, the sending with its retry, and the cut of a logged body.
pub mod Cut
pub mod Attempts
mod Tests
use mongo_ha.Base.{
  ltb, leb, ◌==◌, if◌then◌else◌, ltb→lt, lt→ltb, leb→le, le→leb, leb→gt, ltb→ge, ==_iff, tests,
  Bool-cases, Option-cases, and_true, or_false, is_some, is_some_and, or_else, unwrap_or,
  Option_filter, and_then, Option_map, if_elim, All, Any, In, length, any, all, find, filter, count,
  position, length-append, count-le-length, find-eq-some, find-eq-none, any-eq-false, any-eq-true,
  all-eq-true, find_map, filter_map, All-append, All-In, Any-In, In-filter, In-map, List-cases,
  filter_map-append, filter_map-filter, filter-append, All-of_In, filter_map-In, In-filter_map,
  In-append_left, In-append_right, In-append, In-guard, guard-In, append_nil, append_assoc,
  Duration, Instant, nanos_per_sec, from_secs, from_millis, as_secs, duration_since, bit_xor-zero,
  bit_xor_refl, bit_or-zero, ℕ, zero, suc, ◌+◌, ◌-◌, ◌*◌, ◌/◌, ◌%◌, ◌^◌, bit_or, bit_xor, ◌≤◌, ◌<◌,
  min, max, String, ◌≡◌, refl, sym, ap, ◌∙◌, ◌≢◌, ◌↔◌, ◌⊎◌, inl, inr, Bool, true, false, not, ◌&&◌,
  ◌||◌, Option, none, some, List, [], ◌∷◌, ◌++◌, map, arith,
}
use mongo_ha.Text.{Text, codes, is_empty, text_eq, text_eq_refl, text_eq_iff, text_eq-ne}
use mongo_ha.Text.Number.{
  is_digit, digits_from, digits, unsigned_digits, parse_unsigned, decimal_within, decimal,
}
use mongo_ha.Text.Utf8.{
  Bytes, is_scalar, char_bytes, as_bytes, Decoder, start, inside, lead_byte, next_bits, decode_step,
  emit, decode_from, from_utf8, from_utf8-as_bytes, as_bytes_inj,
}
use mongo_ha.Int64.{
  ℤ, pos, negsuc, i64_max, add_one, leb_ℤ, eq_ℤ, eq_ℤ_iff, as_i32, clamp_usize, maximum, ◌≤ℤ◌,
  maximum_bounds, add_one-fresh, maximum-In, maximum-eq-none,
}

pub data TelemetryEvent : Type 0 where
  node_started : Text → Text → TelemetryEvent
  role_changed : Text → Text → Text → TelemetryEvent
  process_died : Text → Text → Option ℤ → TelemetryEvent
  no_primary : List Text → TelemetryEvent
  component_error : Text → Text → Text → TelemetryEvent

unfoldable pub event_type : TelemetryEvent → Text
event_type (node_started node role) = codes "mongo_ha.node_started"
event_type (role_changed node old new) = codes "mongo_ha.role_changed"
event_type (process_died node process code) = codes "mongo_ha.process_died"
event_type (no_primary backends) = codes "mongo_ha.no_primary"
event_type (component_error component error context) = codes "mongo_ha.component_error"

-- `Display` of an i32.
abbrev pub signed_text : ℤ → Text
signed_text (pos n) = decimal n
signed_text (negsuc n) = b'-' ∷ decimal (suc n)

-- `join(", ")`
unfoldable pub join_comma : List Text → Text
join_comma [] = []
join_comma (s ∷ []) = s
join_comma (s ∷ t ∷ rest) = s ++ codes ", " ++ join_comma (t ∷ rest)

unfoldable pub message : TelemetryEvent → Text
unfolding join_comma
message (node_started node role) = node ++ codes " started as " ++ role
message (role_changed node old new) =
    node ++ codes " changed role from " ++ old ++ codes " to " ++ new
message (process_died node process code) =
    node
    ++ codes ": "
    ++ process
    ++ codes " died with exit code "
    ++ unwrap_or (Option_map signed_text code) (codes "unknown")
message (no_primary backends) =
    codes "no healthy primary backend among [" ++ join_comma backends ++ codes "]"
message (component_error component error context) =
    component ++ codes " failed during " ++ context ++ codes ": " ++ error

pub data SendOutcome : Type 0 where
  sent : SendOutcome
  rejected : Text → SendOutcome

-- `str::starts_with` and `str::contains`.
unfoldable pub begins : Text → Text → Bool
begins [] s = true
begins (c ∷ p) [] = false
begins (c ∷ p) (d ∷ s) = c == d && begins p s

unfoldable pub contains_text : Text → Text → Bool
unfolding begins
contains_text pattern [] = begins pattern []
contains_text pattern (c ∷ s) = begins pattern (c ∷ s) || contains_text pattern s

unfoldable pub classify : ℕ → Text → SendOutcome
unfolding contains_text
classify status body =
    if not (leb 200 status && ltb status 300)
    then rejected (codes "http status")
    else (if contains_text (codes "\"errors\"") body
        then rejected (codes "graphql errors")
        else sent)

abbrev pub max_logged : ℕ
max_logged = 300

abbrev pub is_continuation : ℕ → Bool
is_continuation b = leb 0x80 b && ltb b 0xc0

-- `str::is_char_boundary` on the bytes of a text.
unfoldable pub is_char_boundary : Bytes → ℕ → Bool
is_char_boundary bytes zero = true
is_char_boundary [] (suc n) = false
is_char_boundary (b ∷ []) (suc zero) = true
is_char_boundary (b ∷ c ∷ bytes) (suc zero) = not (is_continuation c)
is_char_boundary (b ∷ bytes) (suc (suc n)) = is_char_boundary bytes (suc n)

-- The loop: `end` goes down to a boundary, of which 0 is one.
unfoldable pub back_up : Bytes → ℕ → ℕ
unfolding is_char_boundary
back_up bytes zero = 0
back_up bytes (suc n) =
    let lower = back_up bytes n in if is_char_boundary bytes (suc n) then suc n else lower

unfoldable pub take_bytes : ℕ → Bytes → Bytes
take_bytes zero bytes = []
take_bytes (suc n) [] = []
take_bytes (suc n) (b ∷ bytes) = b ∷ take_bytes n bytes

-- The slice of the source is the text of the first `end` bytes; an ellipsis follows it. `none` is
-- the panic of a slice that is not a text.
unfoldable pub truncate : Text → Option Text
unfolding back_up take_bytes
truncate body =
    let bytes = as_bytes body in
    if leb (length bytes) max_logged
    then some body
    else Option_map (λ s. s ++ 0x2026 ∷ [])
        (from_utf8 (take_bytes (back_up bytes max_logged) bytes))

-- One answer to a post: the status and the body, or a transport error.
abbrev pub Post : Type 0
Post = Option (ℕ × Text)

-- How a post is logged.
pub data Logged : Type 0 where
  telemetry_sent retrying send_failed : Logged
  telemetry_rejected : Text → Logged

abbrev pub logged_outcome : SendOutcome → Logged
logged_outcome sent = telemetry_sent
logged_outcome (rejected why) = telemetry_rejected why

abbrev pub answered : Post → ℕ → List Logged → List Logged
answered (some (status, body)) left later = logged_outcome (classify status body) ∷ []
answered none zero later = send_failed ∷ []
answered none (suc n) later = retrying ∷ later

-- The attempts that are left, over what each post answers.
unfoldable pub send_attempts : ℕ → (ℕ → Post) → List Logged
unfolding classify
send_attempts zero post = []
send_attempts (suc n) post = answered (post n) n (send_attempts n post)

unfoldable pub send_with_attempts : Bool → ℕ → (ℕ → Post) → List Logged
unfolding send_attempts
send_with_attempts enabled attempts post = if enabled then send_attempts attempts post else []
