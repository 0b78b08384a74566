-- ===== src/Credentials/Adopt.antt =====
-- mongo-wrapper/src/credentials.rs: the keyfile of a live set at boot, with rs.rs:
-- `discover_live_set_keyfile_with_password`.
pub mod Disjoint
mod Tests
use mongo_ha.Base.{
  ltb, leb, ◌==◌, if◌then◌else◌, ltb→lt, lt→ltb, leb→le, le→leb, leb→gt, ltb→ge, ==_iff, tests,
  Bool-cases, Option-cases, and_true, or_false, is_some, is_some_and, or_else, unwrap_or,
  Option_filter, and_then, Option_map, if_elim, All, Any, In, length, any, all, find, filter, count,
  position, length-append, count-le-length, find-eq-some, find-eq-none, any-eq-false, any-eq-true,
  all-eq-true, find_map, filter_map, All-append, All-In, Any-In, In-filter, In-map, List-cases,
  filter_map-append, filter_map-filter, filter-append, All-of_In, filter_map-In, In-filter_map,
  In-append_left, In-append_right, In-append, In-guard, guard-In, append_nil, append_assoc,
  Duration, Instant, nanos_per_sec, from_secs, from_millis, as_secs, duration_since, bit_xor-zero,
  bit_xor_refl, bit_or-zero, ℕ, zero, suc, ◌+◌, ◌-◌, ◌*◌, ◌/◌, ◌%◌, ◌^◌, bit_or, bit_xor, ◌≤◌, ◌<◌,
  min, max, String, ◌≡◌, refl, sym, ap, ◌∙◌, ◌≢◌, ◌↔◌, ◌⊎◌, inl, inr, Bool, true, false, not, ◌&&◌,
  ◌||◌, Option, none, some, List, [], ◌∷◌, ◌++◌, map, arith,
}
use mongo_ha.Text.{Text, codes, is_empty, text_eq, text_eq_refl, text_eq_iff, text_eq-ne}
use mongo_ha.Text.Trim.{is_whitespace, trim_start, trim, NoWhitespace, trim_id}
use mongo_ha.Maps.{
  get, remove, insert, retain, get-nil, get-remove, get-insert, get-retain, map_laws, contains, add,
  retain_set, contains-nil, contains-add, contains-retain,
}
use mongo_ha.Peers.{RsState, PeerAnswer, state, not_ready, unreachable}
use mongo_ha.Peers.Fetch.{
  Response, responded, no_response, is_status_success, query_peer, password_probe_timeout,
  keyfile_fetch_margin, keyfile_fetch_timeout, fetch_keyfile,
}
use mongo_ha.AuthPin.{
  AuthPin, BootCredentials, PasswordProbe, works, access_denied, not_ready, pinned_keyfile,
  write_password_pin, keyfile_drifted, resolved_keyfile, resolve_boot_credentials, Resolver, Pass,
  is_works, adopt_pending, same_option, pin_eq, pin_written, judged, prove_active, env_judged,
  try_environment, resolver_pass, active_password, replay_needed,
}
use mongo_ha.Credentials.{
  is_serving, present_members, healthy_set, is_gone, gone_of, gone_members, set_ready, Operation,
  preflight, prepare, database, member, verify, key_status, key_prepare, key_commit, Rotation, Node,
  Answers, is_ok, is_primary, is_denied, ensure, target_keyfile, runs_target, apply_preflight,
  apply_prepare, swapped, apply_database, apply_member, intended, restarted, apply_key, pin_matches,
  verified, apply_verify, apply_operation,
}

abbrev pub holds_set : PeerAnswer → Bool
holds_set (state s) = s.set_active
holds_set not_ready = false
holds_set unreachable = false

-- The peers in the order of their answers: the first that holds a set and hands out its key.
unfoldable pub discover : (Text → Response Text) → List (Text × PeerAnswer) → Option Text
discover post [] = none
discover post ((host, answer) ∷ rest) =
    let later = discover post rest in
    if holds_set answer then or_else (fetch_keyfile (post host)) later else later

-- The peers that are declared, what they answer, and the response to a keyfile request with a
-- password.
pub record PeerSet : Type 0 where
  pub peer_hosts : List Text
  pub answers : List (Text × PeerAnswer)
  pub post : Text → Text → Response Text

unfoldable pub discover_live_set_keyfile_with_password : PeerSet → Text → Option Text
unfolding discover
discover_live_set_keyfile_with_password s password = elim s.peer_hosts [
  | [] ↦ none
  | h ∷ hs ↦ discover (s.post password) s.answers
]

-- The passwords to prove to a peer, in order.
unfoldable pub candidates : Text → Text → Option Rotation → List Text
candidates root_password pinned none = root_password ∷ pinned ∷ []
candidates root_password pinned (some r) =
    r.new_password ∷ r.current_password ∷ root_password ∷ pinned ∷ []

unfoldable pub first_found : (Text → Option Text) → List Text → Option Text
first_found find [] = none
first_found find (p ∷ ps) = let later = first_found find ps in or_else (find p) later

-- The parser of a JSON list of strings is another crate's.
module _ (parse_list : Text → Option (List Text)) where
  unfoldable pub keys_of : Text → List Text
  keys_of text = unwrap_or (parse_list text) (trim text ∷ [])

  unfoldable pub keys_overlap : Text → Text → Bool
  unfolding keys_of
  keys_overlap left right = any (λ key. contains key (keys_of left)) (keys_of right)

  -- The pin after the boot's check, `none` when it cannot be written. The peers are asked once per
  -- candidate; `in_time` is whether that took at most 20 s.
  abbrev pub adopted : AuthPin → Text → Bool → Option Text → Option (Option AuthPin)
  adopted pin current writable none = some (some pin)
  adopted pin current writable (some keyfile) =
      if keys_overlap current keyfile
      then some (some pin)
      else (if writable then some (some (record pin { keyfile = some keyfile })) else none)

  abbrev pub checked :
      AuthPin
      → Option Text
      → Option Rotation
      → Text
      → (Text → Option Text)
      → Bool
      → Bool
      → Option (Option AuthPin)
  checked pin none pending root_password find in_time writable = some (some pin)
  checked pin (some current) pending root_password find in_time writable =
      if not (is_some pending) && text_eq pin.password root_password
      then some (some pin)
      else adopted pin current writable (
          if in_time
          then first_found find (candidates root_password pin.password pending)
          else none)

  unfoldable pub reconcile_keyfile_at_boot :
      Option AuthPin
      → Option Rotation
      → Text
      → (Text → Option Text)
      → Bool
      → Bool
      → Option (Option AuthPin)
  unfolding keys_overlap candidates first_found
  reconcile_keyfile_at_boot none pending root_password find in_time writable = some none
  reconcile_keyfile_at_boot (some pin) pending root_password find in_time writable =
      checked pin pin.keyfile pending root_password find in_time writable
