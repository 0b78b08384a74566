-- ===== src/Credentials/Request/Tests.antt =====
-- A verification request, authorized and not.
use mongo_ha.Base.{if◌then◌else◌, ◌≡◌, refl, ◌↔◌, true, false, Option, none, some, [], ◌++◌}
use mongo_ha.Text.{Text, codes, text_eq, text_eq_iff}
use mongo_ha.Text.Case.{eq_ignore_ascii_case}
use mongo_ha.Text.Split.{split_once}
use mongo_ha.Text.Utf8.{Bytes, as_bytes}
use mongo_ha.Mongo.{other_error, ok, err, Hello}
use mongo_ha.AuthPin.{PasswordProbe, works, access_denied, write_password_pin}
use mongo_ha.Credentials.{
  verify, Rotation, Node, Answers, target_keyfile, apply_member, verified, apply_verify,
  apply_operation,
}
use mongo_ha.Credentials.Request.{bad_credential, invalid_password, rotated, rotate, reconcile}
use mongo_ha.Credentials.Request.Carried.{IsAccepted, rotate-rotated_iff}

-- The identity in place of base64.
abbrev plain : Text → Option Bytes
plain s = some s

abbrev request : Rotation
request = record { operation = verify; new_password = codes "new"; current_password = codes "old" }

abbrev finished : Node
finished = record {
  pool = codes "new";
  loaded = some (codes "new");
  disk = some (record { password = codes "new"; keyfile = some (codes "new") });
  pending = some request;
  restart = false;
}

abbrev only_new : Text → PasswordProbe
only_new p = if text_eq p (codes "new") then works else access_denied

abbrev follower : Hello
follower = record {
  is_writable_primary = false;
  secondary = true;
  set_name = none;
  isreplicaset = false;
  primary = none;
}

abbrev answers : Answers
answers = record {
  probe = only_new;
  ping = ok tt;
  hello = ok follower;
  update_user = err other_error;
  ready = true;
  writable = true;
  removable = true;
  settled = true;
}

abbrev keep : Text → Text
keep p = p

abbrev both_keys : Text → Text → Text
both_keys p q = p ++ q

abbrev header : Option Text
header = some (codes "BASIC railway:new")

answered :
    rotate some plain text_eq keep both_keys answers (codes "old") header request none finished
    ≡ (record finished { pending = none }, rotated false)
unfolding rotate eq_ignore_ascii_case split_once as_bytes text_eq apply_operation apply_verify
    verified target_keyfile
answered = refl

-- The password of the environment is not asked once a pin is there.
environment_refused :
    rotate some plain text_eq keep both_keys answers
      (codes "old")
      (some (codes "Basic railway:old"))
      request
      none
      finished
    ≡ (finished, bad_credential)
unfolding rotate eq_ignore_ascii_case split_once as_bytes text_eq
environment_refused = refl

empty_refused :
    (rotate some plain text_eq keep both_keys answers
      (codes "old")
      header
      (record request { new_password = [] })
      none
      finished).1
    ≡ invalid_password
unfolding rotate eq_ignore_ascii_case split_once as_bytes text_eq
empty_refused = refl

-- A rotation left alone for 30 s is finished as its member phase.
taken_up :
    (reconcile keep both_keys answers (some 30) none (record finished { disk = none })).disk
    ≡ some (record { password = codes "new"; keyfile = some (codes "new") })
unfolding reconcile apply_operation apply_member text_eq write_password_pin
taken_up = refl

left_alone : reconcile keep both_keys answers (some 29) none finished ≡ finished
unfolding reconcile
left_alone = refl

rotate-rotated_iff_example :
    ((rotate some plain text_eq keep both_keys answers (codes "old") header request none finished).1
      ≡ rotated false)
    ↔ IsAccepted some plain text_eq text_eq_iff keep both_keys answers
        (codes "old")
        header
        request
        none
        finished
        false
rotate-rotated_iff_example =
    rotate-rotated_iff some plain text_eq text_eq_iff keep both_keys answers (codes "old") header
      request none finished false
