-- ===== src/AuthPin/Keyfile.antt =====
-- What becomes of the pinned keyfile.
use mongo_ha.Base.{
  Bool-cases, if_elim, ◌≡◌, refl, ap, ◌∙◌, inl, inr, Bool, true, false, not, ◌&&◌, Option, none,
  some, List, [], ◌∷◌, arith,
}
use mongo_ha.Text.{Text, text_eq}
use mongo_ha.AuthPin.{
  AuthPin, BootCredentials, PasswordProbe, works, access_denied, not_ready, pinned_keyfile,
  write_password_pin, resolve_boot_credentials, Resolver, Pass, is_works, adopt_pending, pin_eq,
  pin_written, judged, prove_active, env_judged, try_environment, resolver_pass, replay_needed,
}

-- The passes of one process.
unfoldable pub passes : BootCredentials → Text → List Pass → Resolver → Resolver
passes boot env_password [] r = r
passes boot env_password (p ∷ ps) r =
    passes boot env_password ps (resolver_pass p boot env_password r).0

written-keyfile :
    (p : Pass) (password : Text) (fallback : Option Text) (disk : Option AuthPin) (k : Text)
    → pinned_keyfile disk ≡ some k
    → pinned_keyfile (pin_written p password fallback disk) ≡ some k
unfolding write_password_pin
written-keyfile p password fallback disk k e = elim (Bool-cases p.writable) [
  | inl w ↦ rw w (ground (arith, e))
  | inr w ↦ rw w e
]

judged-keyfile :
    (p : Pass) (boot : BootCredentials) (r : Resolver) (v : PasswordProbe) (k : Text)
    → pinned_keyfile r.disk ≡ some k
    → pinned_keyfile (judged p boot r v).0.disk ≡ some k
judged-keyfile p boot r works k e =
    if_elim (λ d. pinned_keyfile d ≡ some k)
      (pin_eq r.disk (record { password = r.active; keyfile = boot.keyfile })) _ _ (λ q. e)
      (λ q. written-keyfile p r.active boot.keyfile r.disk k e)
judged-keyfile p boot r access_denied k e =
    if_elim (λ (x : Resolver × List Text). pinned_keyfile x.0.disk ≡ some k) r.drift_reported _ _
      (λ q. e) (λ q. e)
judged-keyfile p boot r not_ready k e = e

env_judged-keyfile :
    (p : Pass) (boot : BootCredentials) (env_password : Text) (r : Resolver) (v : PasswordProbe)
    (k : Text)
    → pinned_keyfile r.disk ≡ some k
    → pinned_keyfile (env_judged p boot env_password r v).0.disk ≡ some k
env_judged-keyfile p boot env_password r works k e =
    written-keyfile p env_password boot.keyfile r.disk k e
env_judged-keyfile p boot env_password r access_denied k e =
    if_elim (λ (x : Resolver × List Text). pinned_keyfile x.0.disk ≡ some k) r.drift_reported _ _
      (λ q. e) (λ q. e)
env_judged-keyfile p boot env_password r not_ready k e = e

pending-keyfile :
    (p : Pass) (pending : Option Text) (r : Resolver) → (adopt_pending p pending r).disk ≡ r.disk
pending-keyfile p none r = refl
pending-keyfile p (some x) r =
    if_elim (λ (y : Resolver). y.disk ≡ r.disk) (not (text_eq x r.active) && is_works (p.probe x)) _
      _ (λ q. refl) (λ q. refl)

prove-keyfile :
    (p : Pass) (boot : BootCredentials) (r : Resolver) (k : Text)
    → pinned_keyfile r.disk ≡ some k
    → pinned_keyfile (prove_active p boot r).0.disk ≡ some k
unfolding prove_active
prove-keyfile p boot r k e =
    if_elim (λ (x : Resolver × List Text). pinned_keyfile x.0.disk ≡ some k) r.proven _ _ (λ q. e)
      (λ q. judged-keyfile p boot r (p.probe r.active) k e)

environment-keyfile :
    (p : Pass) (boot : BootCredentials) (env_password : Text) (r : Resolver) (k : Text)
    → pinned_keyfile r.disk ≡ some k
    → pinned_keyfile (try_environment p boot env_password r).0.disk ≡ some k
unfolding try_environment
environment-keyfile p boot env_password r k e =
    if_elim (λ (x : Resolver × List Text × Bool). pinned_keyfile x.0.disk ≡ some k)
      (not (text_eq env_password r.active)) _ _
      (λ q. env_judged-keyfile p boot env_password r (p.probe env_password) k e) (λ q. e)

pass-keyfile :
    (p : Pass) (boot : BootCredentials) (env_password : Text) (r : Resolver) (k : Text)
    → pinned_keyfile r.disk ≡ some k
    → pinned_keyfile (resolver_pass p boot env_password r).0.disk ≡ some k
unfolding resolver_pass
pass-keyfile p boot env_password r k e =
    if_elim (λ (x : Resolver × List Text × Bool). pinned_keyfile x.0.disk ≡ some k)
      p.init_server_running _ _ (λ q. e)
      (λ q.
        environment-keyfile p boot env_password
          (prove_active p boot (adopt_pending p p.pending r)).0 k
          (prove-keyfile p boot (adopt_pending p p.pending r) k
            (ap pinned_keyfile (pending-keyfile p p.pending r) ∙ e)))

-- The resolver never changes or drops a pinned keyfile, whatever the boot resolved, whatever mongod
-- says and however long it runs. For the boot of a member this is the rule that a password
-- reconciliation never overwrites a coordinated key. It holds as well for a standalone boot, which
-- resolves none: there the source's docs and a test say that the keyfile is dropped, and it is not.
pub passes-keyfile :
    (boot : BootCredentials) (env_password : Text) (ps : List Pass) (r : Resolver) (k : Text)
    → pinned_keyfile r.disk ≡ some k
    → pinned_keyfile (passes boot env_password ps r).disk ≡ some k
unfolding passes
passes-keyfile boot env_password [] r k e = e
passes-keyfile boot env_password (p ∷ ps) r k e =
    passes-keyfile boot env_password ps (resolver_pass p boot env_password r).0 k
      (pass-keyfile p boot env_password r k e)

replay_of_keyfile :
    (pin : Option AuthPin) (k : Text)
    → pinned_keyfile pin ≡ some k
    → replay_needed true false pin ≡ true
unfolding replay_needed
replay_of_keyfile none k e = cc
replay_of_keyfile (some p) k e = ground (arith, e)

-- A volume that holds data and a pinned keyfile still asks for the oplog replay after any life of
-- a standalone process, with the boot marker cleared: the pin is still the record of a set member.
pub replay_again :
    (derive : Text → Text) (env_password : Text) (ps : List Pass) (r : Resolver) (k : Text)
    → pinned_keyfile r.disk ≡ some k
    → replay_needed true false
        (passes
          (resolve_boot_credentials derive r.disk env_password none none)
          env_password
          ps
          r).disk
      ≡ true
replay_again derive env_password ps r k e = replay_of_keyfile _ k (
    passes-keyfile (resolve_boot_credentials derive r.disk env_password none none) env_password ps r
      k e)
