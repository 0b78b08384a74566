-- ===== src/Boot/Keyed.antt =====
-- A member always has a keyfile, and leaves the record that it ran as one.
use mongo_ha.Base.{
  Bool-cases, is_some, ◌≡◌, refl, sym, ap, ◌∙◌, ◌≢◌, inl, inr, true, not, ◌&&◌, ◌||◌, Option, none,
  some, List, arith,
}
use mongo_ha.Text.{Text}
use mongo_ha.WrapperConfig.{Env, Config, rs_enabled, from_env}
use mongo_ha.WrapperConfig.Validated.{from_env_keyed}
use mongo_ha.Passthrough.{merge_own_flags}
use mongo_ha.AuthPin.{AuthPin, resolve_boot_credentials}
use mongo_ha.Boot.{
  with_passthrough, own_flags, Volume, Machine, panicked, Booted, standalone_boot, member_boot,
  boot_credentials, boot,
}

pub rs_enabled-with_passthrough :
    (c : Config) (args : List Text) → rs_enabled (with_passthrough c args) ≡ rs_enabled c
unfolding rs_enabled with_passthrough
rs_enabled-with_passthrough c args = refl

rs_key-with_passthrough :
    (c : Config) (args : List Text) → (with_passthrough c args).rs_key ≡ c.rs_key
unfolding with_passthrough
rs_key-with_passthrough c args = refl

module _ (derive : Text → Text) where
  resolved-some :
      (pin : Option AuthPin) (password : Text) (key live : Option Text)
      → is_some key ≡ true
      → is_some (resolve_boot_credentials derive pin password key live).keyfile ≡ true
  unfolding resolve_boot_credentials
  resolved-some pin password none live h = cc
  resolved-some none password (some k) none h = refl
  resolved-some none password (some k) (some l) h = refl
  resolved-some (some p) password (some k) live h = ground arith

  boot_credentials-some :
      (c : Config) (v : Volume) (m : Machine)
      → rs_enabled c ≡ true
      → is_some c.rs_key ≡ true
      → is_some (boot_credentials derive c v m).keyfile ≡ true
  unfolding boot_credentials
  boot_credentials-some c v m h k = rw h (resolved-some v.pin c.mongo_root_password c.rs_key _ k)

  member_boot-panicked :
      (m : Machine) (v : Volume) (c : Config) (flags : List Text) (key : Option Text)
      → is_some key ≡ true
      → (member_boot m v c flags key).end ≢ panicked
  unfolding member_boot
  member_boot-panicked m v c flags none h e = ground (arith, h)
  member_boot-panicked m v c flags (some k) h e = ground (arith, e)

  standalone_boot-panicked :
      (m : Machine) (v : Volume) (flags : List Text) (b : Booted)
      → standalone_boot m v flags ≡ some b
      → b.end ≢ panicked
  unfolding standalone_boot
  standalone_boot-panicked m v flags b h e = ground (arith, h, e)

  -- A configuration that the environment gave boots without a panic, whatever the arguments, the
  -- volume and the machine are: as a member it always resolves a keyfile.
  pub boot-panicked :
      (env : Env) (config : Config) (v : Volume) (m : Machine) (args : List Text) (b : Booted)
      → from_env env ≡ inl config
      → boot derive config v m args ≡ some b
      → b.end ≢ panicked
  unfolding boot
  boot-panicked env config v m args b f h =
      let c = with_passthrough config args in
      let flags = merge_own_flags (own_flags c) args in
      elim (Bool-cases (not m.lock_acquired || (rs_enabled c && not m.keyfile_reconciled))) [
        | inl e ↦ λ q. ground (arith, e, h, q)
        | inr e ↦ elim (Bool-cases (rs_enabled c)) [
          | inl r ↦
              let keyed =
                from_env_keyed env config f (sym (rs_enabled-with_passthrough config args) ∙ r) in
              let q =
                boot_credentials-some c v m r
                  (ap is_some (rs_key-with_passthrough config args) ∙ keyed) in
              let same : member_boot m v c flags (boot_credentials derive c v m).keyfile ≡ b =
                ground (arith, e, r, h) in
              rw (← same)
                (member_boot-panicked m v c flags (boot_credentials derive c v m).keyfile q)
          | inr r ↦ standalone_boot-panicked m v flags b (ground (arith, e, r, h))
        ]
      ]
