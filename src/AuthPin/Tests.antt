-- ===== src/AuthPin/Tests.antt =====
-- The pin of a volume that was a set member and boots standalone.
use mongo_ha.Base.{◌≡◌, refl, true, false, none, some, [], ◌∷◌}
use mongo_ha.Text.{codes}
use mongo_ha.AuthPin.{
  AuthPin, BootCredentials, works, pinned_keyfile, resolve_boot_credentials, Resolver, Pass,
  replay_needed,
}
use mongo_ha.AuthPin.Keyfile.{passes, passes-keyfile, replay_again}

abbrev member_pin : AuthPin
member_pin = record { password = codes "pw"; keyfile = some (codes "K==") }

abbrev boot_standalone : BootCredentials
boot_standalone = resolve_boot_credentials (λ key. key) (some member_pin) (codes "pw") none none

-- A standalone boot resolves no keyfile.
standalone_keyfile : boot_standalone.keyfile ≡ none
unfolding resolve_boot_credentials
standalone_keyfile = refl

abbrev booted : Resolver
booted = record {
  active = codes "pw";
  proven = false;
  drift_reported = false;
  pool = codes "pw";
  disk = some member_pin;
}

abbrev accepted : Pass
accepted = record {
  init_server_running = false;
  pending = none;
  probe = λ p. works;
  writable = true;
}

passes-keyfile_example :
    pinned_keyfile (passes boot_standalone (codes "pw") (accepted ∷ []) booted).disk
    ≡ some (codes "K==")
passes-keyfile_example =
    passes-keyfile boot_standalone (codes "pw") (accepted ∷ []) booted (codes "K==") refl

replay_again_example :
    replay_needed true false
      (passes
        (resolve_boot_credentials (λ key. key) (some member_pin) (codes "pw") none none)
        (codes "pw")
        (accepted ∷ [])
        booted).disk
    ≡ true
replay_again_example =
    replay_again (λ key. key) (codes "pw") (accepted ∷ []) booted (codes "K==") refl
