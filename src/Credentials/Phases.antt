-- ===== src/Credentials/Phases.antt =====
-- What the phases of a rotation guarantee.
use mongo_ha.Base.{
  if_elim, ◌≡◌, refl, ap, ◌⊎◌, inl, inr, Bool, true, false, ◌&&◌, Option, none, some, arith,
}
use mongo_ha.Text.{Text, text_eq_iff}
use mongo_ha.AuthPin.{AuthPin, is_works, same_option, pinned_keyfile, write_password_pin}
use mongo_ha.Credentials.{
  Operation, preflight, prepare, database, member, verify, key_status, key_prepare, key_commit,
  Rotation, Node, Answers, is_ok, is_primary, is_denied, ensure, target_keyfile, runs_target,
  apply_preflight, apply_prepare, apply_database, apply_member, apply_key, apply_verify,
  apply_operation, verified,
}

-- The pin is as it was, or holds a password that mongod just accepted.
abbrev pub IsProven : Answers → Rotation → Node → Node → Type 0
IsProven a r n m =
    (m.disk ≡ n.disk)
    ⊎ ((is_works (a.probe r.new_password) ≡ true)
        × ((p : AuthPin) × (m.disk ≡ some p) × (p.password ≡ r.new_password)))

module _ (derive : Text → Text) (pair : Text → Text → Text) where
  abbrev Keeps : Answers → Rotation → Node → Node × Bool → Type 0
  Keeps a r n x = IsProven a r n x.0

  Keeps-ensure :
      (a : Answers) (r : Rotation) (n m : Node) (test : Bool) (rest : Node × Bool)
      → IsProven a r n m
      → (test ≡ true → Keeps a r n rest)
      → Keeps a r n (ensure test m rest)
  Keeps-ensure a r n m test rest h k = if_elim (Keeps a r n) test rest (m, false) k (λ e. h)

  Keeps-key :
      (a : Answers) (r : Rotation) (overlap : Bool) (n : Node)
      → Keeps a r n (apply_key derive pair a r overlap n)
  unfolding apply_key
  Keeps-key a r overlap n =
      Keeps-ensure a r n n (is_works (a.probe r.new_password)) _ (inl refl) λ w.
        if_elim (Keeps a r n) (runs_target derive pair r overlap n) _ _ (λ e. inl refl)
          λ e. Keeps-ensure a r n n (a.ready && a.writable) _ (inl refl) λ f.
            if_elim (λ (m : Node). IsProven a r n m) a.settled _ _ (λ q. inr (w, (_, refl, refl)))
              (λ q. inr (w, (_, refl, refl)))

  -- No phase pins a password that is unproven: after any phase, whether it succeeds or fails, the pin
  -- on the volume is the one before, or its password is the new one and mongod accepted it in this
  -- phase.
  pub phase-IsProven :
      (op : Operation) (a : Answers) (r : Rotation) (n : Node)
      → IsProven a r n (apply_operation derive pair op a r n).0
  unfolding apply_operation apply_preflight apply_prepare apply_database apply_member apply_verify
      write_password_pin
  phase-IsProven preflight a r n = inl refl
  phase-IsProven prepare a r n = Keeps-ensure a r n n a.writable _ (inl refl) (λ e. inl refl)
  phase-IsProven database a r n =
      if_elim (Keeps a r n) (is_works (a.probe r.new_password)) _ _ (λ e. inl refl)
        λ e. Keeps-ensure a r n n (is_works (a.probe r.current_password)) _ (inl refl) λ f.
          Keeps-ensure a r n _ (is_primary a.hello && is_ok a.update_user) _ (inl refl)
            (λ g. inl refl)
  phase-IsProven member a r n =
      Keeps-ensure a r n n (is_works (a.probe r.new_password)) _ (inl refl)
        λ w. Keeps-ensure a r n _ a.writable _ (inl refl) (λ e. inr (w, (_, refl, refl)))
  phase-IsProven verify a r n =
      Keeps-ensure a r n n (verified derive pair a r n)
        (ensure a.removable n (record n { pending = none }, is_ok a.hello)) (inl refl)
        λ e.
          Keeps-ensure a r n n a.removable (record n { pending = none }, is_ok a.hello) (inl refl)
            (λ f. inl refl)
  phase-IsProven key_status a r n = inl refl
  phase-IsProven key_prepare a r n = Keeps-key a r true n
  phase-IsProven key_commit a r n = Keeps-key a r false n

same_option_sound : (x y : Option Text) → same_option x y ≡ true → x ≡ y
same_option_sound none none h = refl
same_option_sound none (some c) h = cc
same_option_sound (some c) none h = cc
same_option_sound (some c) (some d) h = ap some ((text_eq_iff c d).0 h)

pin_of_keyfile :
    (disk : Option AuthPin) (k : Text)
    → pinned_keyfile disk ≡ some k
    → (p : AuthPin) × (disk ≡ some p) × (p.keyfile ≡ some k)
pin_of_keyfile none k e = cc
pin_of_keyfile (some p) k e = (p, refl, e)

module _ (derive : Text → Text) (pair : Text → Text → Text) where
  -- The node runs with the new credentials alone, and its volume says so.
  pub record IsRotated (a : Answers) (r : Rotation) (n m : Node) : Type 0 where
    pub key_loaded : m.loaded ≡ some (derive r.new_password)
    pub pin : AuthPin
    pub pinned : m.disk ≡ some pin
    pub pinned_key : pin.keyfile ≡ some (derive r.new_password)
    pub pinned_password : pin.password ≡ r.new_password
    pub none_pending : m.pending ≡ none
    pub set_is_ready : a.ready ≡ true
    pub new_works : is_works (a.probe r.new_password) ≡ true
    pub old_refused :
        (r.current_password ≡ r.new_password) ⊎ (is_denied (a.probe r.current_password) ≡ true)

  verified-IsRotated :
      (a : Answers) (r : Rotation) (n : Node)
      → verified derive pair a r n ≡ true
      → IsRotated a r n (record n { pending = none })
  unfolding verified target_keyfile
  verified-IsRotated a r n h =
      let (p, e, k) = pin_of_keyfile n.disk (derive r.new_password) (
        same_option_sound (pinned_keyfile n.disk) (some (derive r.new_password))
          (ground (arith, h))) in
      record {
        key_loaded = same_option_sound n.loaded (some (derive r.new_password)) (ground (arith, h));
        pin = p;
        pinned = e;
        pinned_key = k;
        pinned_password = ground (arith, h, e, text_eq_iff p.password r.new_password);
        none_pending = refl;
        set_is_ready = ground (arith, h);
        new_works = ground (arith, h);
        old_refused = ground (arith, h, text_eq_iff r.current_password r.new_password);
      }

  -- A verification that succeeds leaves a node whose mongod runs with the key of the new password
  -- alone, whose pin holds that key and the new password, with no rotation pending, in a ready set,
  -- and on which mongod accepts the new password and refuses the old one when it is another.
  pub verify-IsRotated :
      (a : Answers) (r : Rotation) (n : Node)
      → (apply_operation derive pair verify a r n).1 ≡ true
      → IsRotated a r n (apply_operation derive pair verify a r n).0
  unfolding apply_operation apply_verify
  verify-IsRotated a r n h =
      if_elim (λ (x : Node × Bool). x.1 ≡ true → IsRotated a r n x.0) (verified derive pair a r n)
        (ensure a.removable n (record n { pending = none }, is_ok a.hello)) (n, false)
        (λ v.
          if_elim (λ (x : Node × Bool). x.1 ≡ true → IsRotated a r n x.0) a.removable
            (record n { pending = none }, is_ok a.hello) (n, false)
            (λ w e. verified-IsRotated a r n v) (λ w e. absurd (ground (arith, e))))
        (λ v e. absurd (ground (arith, e))) h
