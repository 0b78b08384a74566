-- ===== src/AuthPin.antt =====
-- mongo-wrapper/src/auth_pin.rs: the credential pin of the volume, and when the recovery of
-- standalone_recovery.rs runs. The file system is a value: what the pin file holds.
pub mod Keyfile
mod Tests
use mongo_ha.Base.{
  ltb, leb, ◌==◌, if◌then◌else◌, ltb→lt, lt→ltb, leb→le, le→leb, leb→gt, ltb→ge, ==_iff, tests,
  Bool-cases, Option-cases, and_true, or_false, is_some, is_some_and, or_else, unwrap_or,
  Option_filter, and_then, Option_map, if_elim, All, Any, In, length, any, all, find, filter, count,
  position, length-append, count-le-length, find-eq-some, find-eq-none, any-eq-false, any-eq-true,
  all-eq-true, find_map, filter_map, All-append, All-In, Any-In, In-filter, In-map, List-cases,
  filter_map-append, filter_map-filter, filter-append, All-of_In, filter_map-In, In-filter_map,
  In-append_left, In-append_right, In-append, In-guard, guard-In, append_nil, append_assoc,
  Duration, Instant, nanos_per_sec, from_secs, from_millis, as_secs, duration_since, ℕ, zero, suc,
  ◌+◌, ◌-◌, ◌*◌, ◌/◌, ◌%◌, ◌^◌, ◌≤◌, ◌<◌, min, max, String, ◌≡◌, refl, sym, ap, ◌∙◌, ◌≢◌, ◌↔◌, ◌⊎◌,
  inl, inr, Bool, true, false, not, ◌&&◌, ◌||◌, Option, none, some, List, [], ◌∷◌, ◌++◌, map, arith,
}
use mongo_ha.Text.{Text, codes, text_eq}

pub record AuthPin : Type 0 where
  pub password : Text
  pub keyfile : Option Text

pub record BootCredentials : Type 0 where
  pub password : Text
  pub keyfile : Option Text
  pub env_drifted : Bool

pub data PasswordProbe : Type 0 where
  works access_denied not_ready : PasswordProbe

abbrev pub pinned_keyfile : Option AuthPin → Option Text
pinned_keyfile pin = and_then pin (λ p. p.keyfile)

-- The pin that a password reconciliation writes over the one on the volume.
unfoldable pub write_password_pin : Text → Option Text → Option AuthPin → AuthPin
write_password_pin password fallback_key disk = record {
  password = password;
  keyfile = or_else (pinned_keyfile disk) fallback_key;
}

-- Both are present and differ.
abbrev pub keyfile_drifted : Option Text → Option Text → Bool
keyfile_drifted (some pinned) (some env) = not (text_eq pinned env)
keyfile_drifted _ _ = false

-- `derive` is the hash of a shared secret.
module _ (derive : Text → Text) where
  abbrev pub resolved_keyfile : AuthPin → Option Text → Option Text → Option Text
  resolved_keyfile pin none live = none
  resolved_keyfile pin (some key) live = or_else (or_else pin.keyfile live) (some (derive key))

  unfoldable pub resolve_boot_credentials :
      Option AuthPin → Text → Option Text → Option Text → BootCredentials
  resolve_boot_credentials (some pin) env_password env_rs_key live = record {
    password = pin.password;
    keyfile = resolved_keyfile pin env_rs_key live;
    env_drifted =
        not (text_eq pin.password env_password)
        || keyfile_drifted pin.keyfile (Option_map derive env_rs_key);
  }
  resolve_boot_credentials none env_password env_rs_key live = record {
    password = env_password;
    keyfile = or_else live (Option_map derive env_rs_key);
    env_drifted = false;
  }

-- The variables of `resolver`, the password of the pooled client, and the pin on the volume.
pub record Resolver : Type 0 where
  pub active : Text
  pub proven : Bool
  pub drift_reported : Bool
  pub pool : Text
  pub disk : Option AuthPin

-- What one pass finds: the init server, the pending rotation, mongod's verdict on a password, and
-- whether the pin can be written.
pub record Pass : Type 0 where
  pub init_server_running : Bool
  pub pending : Option Text
  pub probe : Text → PasswordProbe
  pub writable : Bool

abbrev pub is_works : PasswordProbe → Bool
is_works works = true
is_works access_denied = false
is_works not_ready = false

abbrev pub adopt_pending : Pass → Option Text → Resolver → Resolver
adopt_pending p none r = r
adopt_pending p (some pending) r =
    if not (text_eq pending r.active) && is_works (p.probe pending)
    then record r { pool = pending; active = pending; proven = false }
    else r

abbrev pub same_option : Option Text → Option Text → Bool
same_option none none = true
same_option (some a) (some b) = text_eq a b
same_option _ _ = false

-- `read_pin(..) == Some(&pin)`
abbrev pub pin_eq : Option AuthPin → AuthPin → Bool
pin_eq none q = false
pin_eq (some p) q = text_eq p.password q.password && same_option p.keyfile q.keyfile

-- A write that fails leaves the old file: it is renamed into place.
abbrev pub pin_written : Pass → Text → Option Text → Option AuthPin → Option AuthPin
pin_written p password keyfile disk =
    if p.writable then some (write_password_pin password keyfile disk) else disk

abbrev pub judged : Pass → BootCredentials → Resolver → PasswordProbe → Resolver × List Text
judged p boot r works =
    let pin : AuthPin = record { password = r.active; keyfile = boot.keyfile } in
    let disk = if pin_eq r.disk pin then r.disk else pin_written p r.active boot.keyfile r.disk in
    (record r { proven = true; disk = disk }, [])
judged p boot r access_denied =
    if r.drift_reported
    then (r, [])
    else (record r { drift_reported = true }, codes "credential-pin" ∷ [])
judged p boot r not_ready = (r, [])

-- The first step of a pass that is not waiting for the init server.
unfoldable pub prove_active : Pass → BootCredentials → Resolver → Resolver × List Text
prove_active p boot r = if r.proven then (r, []) else judged p boot r (p.probe r.active)

abbrev pub env_judged :
    Pass → BootCredentials → Text → Resolver → PasswordProbe → Resolver × List Text
env_judged p boot env_password r works = (
  record {
    active = env_password;
    proven = true;
    drift_reported = false;
    pool = env_password;
    disk = pin_written p env_password boot.keyfile r.disk;
  },
  [],
)
env_judged p boot env_password r access_denied =
    if r.drift_reported
    then (r, [])
    else (record r { drift_reported = true }, codes "credential-drift" ∷ [])
env_judged p boot env_password r not_ready = (r, [])

-- The second step, and whether the resolver returns.
unfoldable pub try_environment :
    Pass → BootCredentials → Text → Resolver → Resolver × List Text × Bool
try_environment p boot env_password r =
    if not (text_eq env_password r.active)
    then (let (r2, fx) = env_judged p boot env_password r (p.probe env_password) in (r2, fx, false))
    else (r, [], r.proven)

-- One pass of `resolver`: its variables, the reports, and whether it returns.
unfoldable pub resolver_pass :
    Pass → BootCredentials → Text → Resolver → Resolver × List Text × Bool
unfolding prove_active try_environment
resolver_pass p boot env_password r =
    if p.init_server_running
    then (r, [], false)
    else (let (r2, fx) = prove_active p boot (adopt_pending p p.pending r) in
        let (r3, gx, done) = try_environment p boot env_password r2 in (r3, fx ++ gx, done))

unfoldable pub active_password : Option AuthPin → Text → Text
active_password disk root_password = unwrap_or (Option_map (λ p. p.password) disk) root_password

-- standalone_recovery.rs: `replay_needed`
unfoldable pub replay_needed : Bool → Bool → Option AuthPin → Bool
replay_needed has_data marker_present pin =
    has_data && (marker_present || is_some_and pin (λ p. is_some p.keyfile))
