-- ===== src/Credentials/Tests.antt =====
-- A rotation on one node.
use mongo_ha.Base.{if◌then◌else◌, ◌≡◌, refl, true, false, none, some, ◌++◌}
use mongo_ha.Text.{Text, codes, text_eq}
use mongo_ha.Mongo.{other_error, ok, err, Hello}
use mongo_ha.AuthPin.{PasswordProbe, works, access_denied}
use mongo_ha.Credentials.{
  member, verify, Rotation, Node, Answers, target_keyfile, verified, apply_verify, apply_operation,
}
use mongo_ha.Credentials.Phases.{IsProven, phase-IsProven, IsRotated, verify-IsRotated}

abbrev request : Rotation
request = record { operation = verify; new_password = codes "new"; current_password = codes "old" }

abbrev finished : Node
finished = record {
  pool = codes "new";
  loaded = some (codes "new");
  disk = some (record { password = codes "new"; keyfile = some (codes "new") });
  pending = some request;
  restart = false;
}

abbrev only_new : Text → PasswordProbe
only_new p = if text_eq p (codes "new") then works else access_denied

abbrev follower : Hello
follower = record {
  is_writable_primary = false;
  secondary = true;
  set_name = none;
  isreplicaset = false;
  primary = none;
}

abbrev answers : Answers
answers = record {
  probe = only_new;
  ping = ok tt;
  hello = ok follower;
  update_user = err other_error;
  ready = true;
  writable = true;
  removable = true;
  settled = true;
}

verifies : (apply_operation (λ p. p) (λ p q. p ++ q) verify answers request finished).1 ≡ true
unfolding apply_operation apply_verify verified target_keyfile text_eq
verifies = refl

verify-IsRotated_example :
    IsRotated
      (λ p. p)
      (λ p q. p ++ q)
      answers
      request
      finished
      (apply_operation (λ p. p) (λ p q. p ++ q) verify answers request finished).0
verify-IsRotated_example =
    verify-IsRotated (λ p. p) (λ p q. p ++ q) answers request finished verifies

phase-IsProven_example :
    IsProven answers request finished
      (apply_operation (λ p. p) (λ p q. p ++ q) member answers request finished).0
phase-IsProven_example = phase-IsProven (λ p. p) (λ p q. p ++ q) member answers request finished
