-- ===== src/WrapperConfig/Validated.antt =====
-- When an environment gives a configuration, and what the configuration then has.
use mongo_ha.Base.{
  Bool-cases, Option-cases, is_some, unwrap_or, ◌≡◌, refl, sym, ap, ◌∙◌, ◌≢◌, ◌↔◌, inl, inr, true,
  false, not, ◌&&◌, Option, none, some, arith, ◌∷◌, [], All, any-eq-false, any-of_All,
}
use mongo_ha.Text.{Text, codes, is_empty, text_eq, text_eq_iff}
use mongo_ha.Text.Trim.{trim, is_whitespace}
use mongo_ha.WrapperConfig.{
  Env, Config, env_or, non_empty, enabled_flag, rs_enabled, config_of, bad_name, validated,
  with_credentials, from_env, is_empty,
}

-- A variable holds something that is not blank.
abbrev pub IsPresent : Env → Text → Type 0
IsPresent env name = (v : Text) × (env name ≡ some v) × (is_empty (trim v) ≡ false)

-- Not empty, and no character of it is white space.
abbrev pub IsSolid : Text → Type 0
IsSolid name = (name ≢ []) × All (λ c. is_whitespace c ≡ false) name

bad_name-IsSolid : (name : Text) → (bad_name name ≡ false) ↔ IsSolid name
unfolding bad_name
bad_name-IsSolid [] = (λ h. cc, λ (n, h). absurd (n refl))
bad_name-IsSolid (c ∷ s) = (
  λ h. (λ e. cc, any-eq-false is_whitespace (c ∷ s) h),
  λ (n, h). any-of_All is_whitespace (c ∷ s) h,
)

-- What an environment must have.
pub record IsComplete (env : Env) : Type 0 where
  pub username : Text
  pub password : Text
  pub has_username : env (codes "MONGO_INITDB_ROOT_USERNAME") ≡ some username
  pub has_password : env (codes "MONGO_INITDB_ROOT_PASSWORD") ≡ some password
  pub keyed :
      env (codes "RS_ENABLED") ≢ some (codes "false")
      → IsPresent env (codes "RS_SEEDS")
      → IsPresent env (codes "RS_KEY")
  pub named : IsSolid (unwrap_or (env (codes "RS_NAME")) (codes "rs0"))

non_empty-IsPresent :
    (env : Env) (name : Text) → (is_some (non_empty (env name)) ≡ true) ↔ IsPresent env name
unfolding non_empty
non_empty-IsPresent env name = (to, from)
  where
    to : is_some (non_empty (env name)) ≡ true → IsPresent env name
    to h = elim (Option-cases (env name)) [
      | inl e ↦ absurd (ground (arith, e, h))
      | inr (v, e) ↦ (v, e, ground (arith, e, h))
    ]

    from : IsPresent env name → is_some (non_empty (env name)) ≡ true
    from (v, e, h) = rw (e, h) refl

enabled_flag_iff : (v : Option Text) → (enabled_flag v ≡ true) ↔ (v ≢ some (codes "false"))
unfolding enabled_flag
enabled_flag_iff none = (λ h e. cc, λ h. refl)
enabled_flag_iff (some v) = (
  λ h e. ground (arith, h, (text_eq_iff v (codes "false")).1 (ground (arith, e))),
  λ h. elim (Bool-cases (text_eq v (codes "false"))) [
    | inl e ↦ absurd (h (ap some ((text_eq_iff v (codes "false")).0 e)))
    | inr e ↦ rw e refl
  ],
)

validated-inl_iff :
    (c : Config)
    → (validated c ≡ inl c)
      ↔ ((rs_enabled c ≡ true → is_some c.rs_key ≡ true) × (bad_name c.rs_name ≡ false))
unfolding validated
validated-inl_iff c = (to, from)
  where
    to :
        validated c ≡ inl c
        → (rs_enabled c ≡ true → is_some c.rs_key ≡ true) × (bad_name c.rs_name ≡ false)
    to h = elim (Bool-cases (rs_enabled c && not (is_some c.rs_key))) [
      | inl e ↦ absurd (ground (arith, e, h))
      | inr e ↦ elim (Bool-cases (bad_name c.rs_name)) [
        | inl f ↦ absurd (ground (arith, e, f, h))
        | inr f ↦ (λ r. ground (arith, r, e), f)
      ]
    ]

    from :
        (rs_enabled c ≡ true → is_some c.rs_key ≡ true) × (bad_name c.rs_name ≡ false)
        → validated c ≡ inl c
    from (k, f) = elim (Bool-cases (rs_enabled c)) [
      | inl r ↦ rw (r, k r, f) refl
      | inr r ↦ rw (r, f) refl
    ]

validated-same : (c d : Config) → validated c ≡ inl d → d ≡ c
unfolding validated
validated-same c d h = elim (Bool-cases (rs_enabled c && not (is_some c.rs_key))) [
  | inl e ↦ absurd (ground (arith, e, h))
  | inr e ↦ elim (Bool-cases (bad_name c.rs_name)) [
    | inl f ↦ absurd (ground (arith, e, f, h))
    | inr f ↦ ground (arith, e, f, h)
  ]
]

-- What a configuration was built from.
built :
    (env : Env) (c : Config)
    → from_env env ≡ inl c
    → (u : Text) × (p : Text) × (env (codes "MONGO_INITDB_ROOT_USERNAME") ≡ some u)
      × (env (codes "MONGO_INITDB_ROOT_PASSWORD") ≡ some p)
      × (c ≡ config_of env u p)
      × (validated (config_of env u p) ≡ inl (config_of env u p))
unfolding from_env
built env c h =
    go (env (codes "MONGO_INITDB_ROOT_USERNAME")) (env (codes "MONGO_INITDB_ROOT_PASSWORD")) refl
      refl h
  where
    go :
        (u p : Option Text)
        → env (codes "MONGO_INITDB_ROOT_USERNAME") ≡ u
        → env (codes "MONGO_INITDB_ROOT_PASSWORD") ≡ p
        → with_credentials env u p ≡ inl c
        → (x : Text) × (y : Text) × (env (codes "MONGO_INITDB_ROOT_USERNAME") ≡ some x)
          × (env (codes "MONGO_INITDB_ROOT_PASSWORD") ≡ some y)
          × (c ≡ config_of env x y)
          × (validated (config_of env x y) ≡ inl (config_of env x y))
    go none p e f h = cc
    go (some u) none e f h = cc
    go (some u) (some p) e f h =
        let q = validated-same (config_of env u p) c h in (u, p, e, f, q, h ∙ ap inl q)

rs_enabled-config_of_iff :
    (env : Env) (u p : Text)
    → (rs_enabled (config_of env u p) ≡ true)
      ↔ ((env (codes "RS_ENABLED") ≢ some (codes "false")) × IsPresent env (codes "RS_SEEDS"))
unfolding rs_enabled config_of
rs_enabled-config_of_iff env u p = (
  λ h. (
    (enabled_flag_iff (env (codes "RS_ENABLED"))).0 (ground (arith, h)),
    (non_empty-IsPresent env (codes "RS_SEEDS")).0 (ground (arith, h)),
  ),
  λ (e, s).
      let a = (enabled_flag_iff (env (codes "RS_ENABLED"))).1 e in
      let b = (non_empty-IsPresent env (codes "RS_SEEDS")).1 s in rw (a, b) refl,
)

rs_key-config_of_iff :
    (env : Env) (u p : Text)
    → (is_some (config_of env u p).rs_key ≡ true) ↔ IsPresent env (codes "RS_KEY")
unfolding config_of
rs_key-config_of_iff env u p = non_empty-IsPresent env (codes "RS_KEY")

rs_name-config_of :
    (env : Env) (u p : Text)
    → (config_of env u p).rs_name ≡ unwrap_or (env (codes "RS_NAME")) (codes "rs0")
unfolding config_of env_or
rs_name-config_of env u p = refl

built-IsComplete : (env : Env) (c : Config) → from_env env ≡ inl c → IsComplete env
built-IsComplete env c h =
    let (u, p, e, f, q, v) = built env c h in
    let (k, n) = (validated-inl_iff (config_of env u p)).0 v in
    record {
      username = u;
      password = p;
      has_username = e;
      has_password = f;
      keyed =
          λ a b. (rs_key-config_of_iff env u p).0 (k ((rs_enabled-config_of_iff env u p).1 (a, b)));
      named = (bad_name-IsSolid _).0 (ap bad_name (sym (rs_name-config_of env u p)) ∙ n);
    }

IsComplete-built : (env : Env) → IsComplete env → (c : Config) × (from_env env ≡ inl c)
unfolding from_env
IsComplete-built env w = (
  config_of env w.username w.password,
  rw (w.has_username, w.has_password)
      ((validated-inl_iff (config_of env w.username w.password)).1 (
        λ r.
            let (a, b) = (rs_enabled-config_of_iff env w.username w.password).0 r in
            (rs_key-config_of_iff env w.username w.password).1 (w.keyed a b),
        ap bad_name (rs_name-config_of env w.username w.password) ∙ (bad_name-IsSolid _).1 w.named,
      )),
)

-- An environment gives a configuration exactly when both root credentials are set, RS_KEY is not
-- blank wherever RS_SEEDS is not and RS_ENABLED is not `false`, and RS_NAME, or its default, is not
-- empty and has no white space.
pub from_env-built_iff : (env : Env) → ((c : Config) × (from_env env ≡ inl c)) ↔ IsComplete env
from_env-built_iff env = (λ (c, h). built-IsComplete env c h, IsComplete-built env)

pub from_env_keyed :
    (env : Env) (c : Config) → from_env env ≡ inl c → rs_enabled c ≡ true → is_some c.rs_key ≡ true
from_env_keyed env c h r =
    let (u, p, e, f, q, v) = built env c h in
    let (k, n) = (validated-inl_iff (config_of env u p)).0 v in rw q (k (rw q at r))
