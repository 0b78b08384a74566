-- ===== src/Credentials/Request.antt =====
-- mongo-wrapper/src/credentials.rs: the request that runs a phase (`rotate`).
pub mod Carried
mod Tests
use mongo_ha.Base.{
  ltb, leb, ◌==◌, if◌then◌else◌, ltb→lt, lt→ltb, leb→le, le→leb, leb→gt, ltb→ge, ==_iff, tests,
  Bool-cases, Option-cases, and_true, or_false, is_some, is_some_and, or_else, unwrap_or,
  Option_filter, and_then, Option_map, if_elim, All, Any, In, length, any, all, find, filter, count,
  position, length-append, count-le-length, find-eq-some, find-eq-none, any-eq-false, any-eq-true,
  all-eq-true, find_map, filter_map, All-append, All-In, Any-In, In-filter, In-map, List-cases,
  filter_map-append, filter_map-filter, filter-append, All-of_In, filter_map-In, In-filter_map,
  In-append_left, In-append_right, In-append, In-guard, guard-In, append_nil, append_assoc,
  Duration, Instant, nanos_per_sec, from_secs, from_millis, as_secs, duration_since, bit_xor-zero,
  bit_xor_refl, bit_or-zero, ℕ, zero, suc, ◌+◌, ◌-◌, ◌*◌, ◌/◌, ◌%◌, ◌^◌, bit_or, bit_xor, ◌≤◌, ◌<◌,
  min, max, String, ◌≡◌, refl, sym, ap, ◌∙◌, ◌≢◌, ◌↔◌, ◌⊎◌, inl, inr, Bool, true, false, not, ◌&&◌,
  ◌||◌, Option, none, some, List, [], ◌∷◌, ◌++◌, map, arith,
}
use mongo_ha.Text.{Text, codes, is_empty, text_eq, text_eq_refl, text_eq_iff, text_eq-ne}
use mongo_ha.Text.Case.{
  to_ascii_lowercase, eq_ignore_ascii_case, eq_ignore_ascii_case_iff, eq_ignore_ascii_case_refl,
  eq_ignore_ascii_case_symm, eq_ignore_ascii_case_trans,
}
use mongo_ha.Text.Split.{
  split, first_piece, split_once, rsplit_once, split_join_step, split_lacks, split_one, split_two,
  split_once-eq-some, split_once_join, join, split-join,
}
use mongo_ha.Text.Utf8.{
  Bytes, is_scalar, char_bytes, as_bytes, Decoder, start, inside, lead_byte, next_bits, decode_step,
  emit, decode_from, from_utf8, from_utf8-as_bytes, as_bytes_inj,
}
use mongo_ha.AuthPin.{
  AuthPin, BootCredentials, PasswordProbe, works, access_denied, not_ready, pinned_keyfile,
  write_password_pin, keyfile_drifted, resolved_keyfile, resolve_boot_credentials, Resolver, Pass,
  is_works, adopt_pending, same_option, pin_eq, pin_written, judged, prove_active, env_judged,
  try_environment, resolver_pass, active_password, replay_needed,
}
use mongo_ha.Credentials.{
  is_serving, present_members, healthy_set, is_gone, gone_of, gone_members, set_ready, Operation,
  preflight, prepare, database, member, verify, key_status, key_prepare, key_commit, Rotation, Node,
  Answers, is_ok, is_primary, is_denied, ensure, target_keyfile, runs_target, apply_preflight,
  apply_prepare, swapped, apply_database, apply_member, intended, restarted, apply_key, pin_matches,
  verified, apply_verify, apply_operation,
}

-- `rotated` is 200 with `leader`; the others are 401, 400 and 503 with a fixed text.
pub data Answer : Type 0 where
  bad_credential invalid_password unverified : Answer
  rotated : Bool → Answer

-- The pinned password, or the one of the environment.
abbrev pub active_password_of : Option AuthPin → Text → Text
active_password_of disk root_password = unwrap_or (Option_map (λ p. p.password) disk) root_password

abbrev pub expected_bytes : Text → Bytes
expected_bytes active_password = as_bytes (codes "railway:" ++ active_password)

abbrev pub is_basic : Text × Text → Bool
is_basic (scheme, token) = eq_ignore_ascii_case scheme (codes "basic")

unfoldable pub is_invalid : Text → Bool
is_invalid password = is_empty password || ltb 1024 (length (as_bytes password))

-- What a phase that succeeds answers: `prepare` never asks mongod and answers `false`.
abbrev pub leader_of : Operation → Answers → Bool
leader_of prepare a = false
leader_of _ a = is_primary a.hello

-- What the 35 s leave: `some m` is the node as the interrupted phase left it.
abbrev pub in_time : Bool → Option Node → Node × Bool → Node × Answer
in_time leader (some m) applied = (m, unverified)
in_time leader none (m, true) = (m, rotated leader)
in_time leader none (m, false) = (m, unverified)

-- The header value's `to_str`, the base64 decoder and the comparison of two slices are other
-- crates'; `derive` and `pair` are those of the phases.
module _ {HeaderValue : Type 0} (to_str : HeaderValue → Option Text)
    (base64_decode : Text → Option Bytes) (ct_eq : Bytes → Bytes → Bool) where
  unfoldable pub supplied : Option HeaderValue → Option Bytes
  supplied header =
      and_then (Option_filter is_basic (and_then (and_then header to_str) (split_once b' ')))
        (λ (scheme, token). base64_decode token)

  abbrev pub is_authorized : Option HeaderValue → Text → Bool
  is_authorized header active_password =
      is_some_and (supplied header) (λ s. ct_eq s (expected_bytes active_password))

  unfoldable pub rotate :
      (Text → Text)
      → (Text → Text → Text)
      → Answers
      → Text
      → Option HeaderValue
      → Rotation
      → Option Node
      → Node
      → Node × Answer
  unfolding supplied is_invalid
  rotate derive pair a root_password header r cut_off n =
      if not (is_authorized header (active_password_of n.disk root_password))
      then (n, bad_credential)
      else (if is_invalid r.new_password
          then (n, invalid_password)
          else in_time (leader_of r.operation a) cut_off
              (apply_operation derive pair r.operation a r n))

-- One round of the loop that finishes a rotation nobody drives any more: `age` is that of the
-- pending file in seconds, and `some m` in `cut_off` the node as 25 s left it.
module _ (derive : Text → Text) (pair : Text → Text → Text) where
  abbrev pub reconciled : Answers → Option Rotation → Option Node → Node → Node
  reconciled a none cut_off n = n
  reconciled a (some r) (some m) n = m
  reconciled a (some r) none n =
      (apply_operation derive pair member a (record r { operation = member }) n).0

  unfoldable pub reconcile : Answers → Option ℕ → Option Node → Node → Node
  reconcile a age cut_off n =
      if is_some_and age (λ s. leb 30 s) then reconciled a n.pending cut_off n else n
