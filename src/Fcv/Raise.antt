-- ===== src/Fcv/Raise.antt =====
-- When a round raises the version, and to what.
use mongo_ha.Base.{
  Bool-cases, is_some, All, find, find-eq-none, ◌≡◌, refl, sym, ap, ◌∙◌, ◌↔◌, inl, inr, true, false,
  not, Option, none, some, List, [], ◌∷◌, arith,
}
use mongo_ha.Text.{Text, text_eq_iff}
use mongo_ha.Mongo.{Reply, ok, err}
use mongo_ha.Fcv.{
  Fcv, Role, standalone, primary, not_primary, MemberSeries, raise_to, Series, series_ltb,
  series_eq, parse_series, series_text, is_behind, on_members, on_role, compared, settled, parsed,
  decide, raise,
}

-- The member is healthy and answered with a series that is not behind.
abbrev pub Ready : Series → MemberSeries → Type 0
Ready running m =
    (m.healthy ≡ true)
    × ((text : Text) × (s : Series) × (m.series ≡ some text)
        × (parse_series text ≡ some s)
        × (series_ltb s running ≡ false))

-- The role allows a raise.
abbrev pub Allowed : Series → Role → List MemberSeries → Type 0
Allowed running standalone members = Unit {0}
Allowed running primary members = All (Ready running) members
Allowed running not_primary members = ⊥

pub record CanRaise (running : Text) (fcv : Fcv) (role : Role) (members : List MemberSeries)
    (to : Text) : Type 0 where
  pub target_series : Series
  pub current : Series
  pub running_parses : parse_series running ≡ some target_series
  pub current_parses : parse_series fcv.version ≡ some current
  pub settled_before : fcv.target ≡ none
  pub upwards : series_ltb current target_series ≡ true
  pub names_running : to ≡ series_text target_series
  pub allowed : Allowed target_series role members

Ready-test :
    (r : Series) (m : MemberSeries)
    → (m.healthy ≡ true)
    → is_some m.series ≡ true
    → is_behind r m ≡ false
    → Ready r m
unfolding is_behind
Ready-test r m h s n = (h, go m.series refl s)
  where
    parsed_case :
        (text : Text)
        → m.series ≡ some text
        → (o : Option Series) → parse_series text ≡ o
        → (text : Text) × (x : Series) × (m.series ≡ some text)
          × (parse_series text ≡ some x)
          × (series_ltb x r ≡ false)
    parsed_case text q none e = absurd (ground (arith, q, e, n))
    parsed_case text q (some x) e = (text, x, q, e, ground (arith, q, e, n))

    go :
        (o : Option Text)
        → m.series ≡ o
        → is_some o ≡ true
        → (text : Text) × (x : Series) × (m.series ≡ some text)
          × (parse_series text ≡ some x)
          × (series_ltb x r ≡ false)
    go none q t = absurd (ground arith)
    go (some text) q t = parsed_case text q (parse_series text) refl

test-Ready :
    (r : Series) (m : MemberSeries)
    → Ready r m
    → (not m.healthy ≡ false) × (not (is_some m.series) ≡ false) × (is_behind r m ≡ false)
unfolding is_behind
test-Ready r m (h, (text, s, q, e, n)) =
    (ground (arith, h), ground (arith, q), (rw (q, e, is_behind) n))

All-Ready :
    (r : Series) (members : List MemberSeries)
    → find (λ m. not m.healthy) members ≡ none
    → find (λ m. not (is_some m.series)) members ≡ none
    → find (is_behind r) members ≡ none
    → All (Ready r) members
All-Ready r members h s n =
    go members (find-eq-none (λ m. not m.healthy) members h)
      (find-eq-none (λ m. not (is_some m.series)) members s) (find-eq-none (is_behind r) members n)
  where
    go :
        (ms : List MemberSeries)
        → All (λ m. not m.healthy ≡ false) ms
        → All (λ m. not (is_some m.series) ≡ false) ms
        → All (λ m. is_behind r m ≡ false) ms
        → All (Ready r) ms
    go [] h s n = tt
    go (m ∷ ms) (h, hs) (s, ss) (n, ns) =
        (Ready-test r m (ground (arith, h)) (ground (arith, s)) n, go ms hs ss ns)

finds-Ready :
    (r : Series) (members : List MemberSeries)
    → All (Ready r) members
    → (find (λ m. not m.healthy) members ≡ none)
      × (find (λ m. not (is_some m.series)) members ≡ none)
      × (find (is_behind r) members ≡ none)
finds-Ready r [] h = (refl, refl, refl)
finds-Ready r (m ∷ ms) (h, hs) = ground (arith, test-Ready r m h, finds-Ready r ms hs)

raise-on_members :
    (r : Series) (a c d : Option MemberSeries) (to : Text)
    → on_members r a c d ≡ raise_to to
    → (a ≡ none) × (c ≡ none) × (d ≡ none) × (to ≡ series_text r)
raise-on_members r none none none to h = (refl, refl, refl, ground (arith, h))
raise-on_members r (some m) c d to h = cc
raise-on_members r none (some m) d to h = cc
raise-on_members r none none (some m) to h = cc

raise-on_role :
    (r : Series) (fcv : Fcv) (role : Role) (members : List MemberSeries) (to : Text)
    → on_role r fcv role members ≡ raise_to to
    → (to ≡ series_text r) × Allowed r role members
raise-on_role r fcv standalone members to h = (ground (arith, h), tt)
raise-on_role r fcv not_primary members to h = cc
raise-on_role r fcv primary members to h =
    let (a, c, d, e) =
      raise-on_members r (find (λ m. not m.healthy) members)
        (find (λ m. not (is_some m.series)) members) (find (is_behind r) members) to h in
    (e, All-Ready r members a c d)

on_role-raise :
    (r : Series) (fcv : Fcv) (role : Role) (members : List MemberSeries)
    → Allowed r role members
    → on_role r fcv role members ≡ raise_to (series_text r)
on_role-raise r fcv standalone members h = refl
on_role-raise r fcv not_primary members h = absurd h
on_role-raise r fcv primary members h = let (a, c, d) = finds-Ready r members h in rw (a, c, d) refl

series_trichotomy :
    (r c : Series) → series_eq c r ≡ false → series_ltb r c ≡ false → series_ltb c r ≡ true
series_trichotomy (a, b) (c, d) h k = ground arith

series_ltb-asymm :
    (r c : Series) → series_ltb c r ≡ true → (series_eq c r ≡ false) × (series_ltb r c ≡ false)
series_ltb-asymm (a, b) (c, d) h = (ground arith, ground arith)

can_raise :
    (running : Text) (fcv : Fcv) (role : Role) (members : List MemberSeries) (to : Text)
    → decide running fcv role members ≡ raise_to to
    → CanRaise running fcv role members to
unfolding decide
can_raise running fcv role members to h =
    go (parse_series running) refl (parse_series fcv.version) refl h
  where
    ordered :
        (r c : Series)
        → parse_series running ≡ some r
        → parse_series fcv.version ≡ some c
        → fcv.target ≡ none
        → compared r c fcv role members ≡ raise_to to
        → CanRaise running fcv role members to
    ordered r c e f t k = elim (Bool-cases (series_eq c r)) [
      | inl q ↦ absurd (ground (arith, q, k))
      | inr q ↦ elim (Bool-cases (series_ltb r c)) [
        | inl l ↦ absurd (ground (arith, q, l, k))
        | inr l ↦
            let (n, allowed) = raise-on_role r fcv role members to (ground (arith, q, l, k)) in
            record {
              target_series = r;
              current = c;
              running_parses = e;
              current_parses = f;
              settled_before = t;
              upwards = series_trichotomy r c q l;
              names_running = n;
              allowed = allowed;
            }
      ]
    ]

    aimed :
        (r c : Series)
        → parse_series running ≡ some r
        → parse_series fcv.version ≡ some c
        → (t : Option Text) → fcv.target ≡ t
        → settled r c fcv t role members ≡ raise_to to
        → CanRaise running fcv role members to
    aimed r c e f (some target) t k = cc
    aimed r c e f none t k = ordered r c e f t k

    go :
        (r : Option Series)
        → parse_series running ≡ r
        → (c : Option Series) → parse_series fcv.version ≡ c
        → parsed running fcv role members r c ≡ raise_to to
        → CanRaise running fcv role members to
    go none e c f k = cc
    go (some r) e none f k = cc
    go (some r) e (some c) f k = aimed r c e f fcv.target refl k

raises :
    (running : Text) (fcv : Fcv) (role : Role) (members : List MemberSeries) (to : Text)
    → CanRaise running fcv role members to
    → decide running fcv role members ≡ raise_to to
unfolding decide
raises running fcv role members to v =
    let (ne, upper) = series_ltb-asymm v.target_series v.current v.upwards in
    rw (v.running_parses, v.current_parses, v.settled_before, ne, upper)
      (on_role-raise v.target_series fcv role members v.allowed ∙ ap raise_to (sym v.names_running))

-- The wrapper raises exactly when the running series and the version parse, no transition is in
-- flight, the version is below the running series, and the role allows it: a standalone always, a
-- secondary never, and a primary only when every other member is healthy and reported a series that
-- is not behind. It raises to the running series.
pub decide-raise_iff :
    (running : Text) (fcv : Fcv) (role : Role) (members : List MemberSeries) (to : Text)
    → (decide running fcv role members ≡ raise_to to) ↔ CanRaise running fcv role members to
decide-raise_iff running fcv role members to =
    (can_raise running fcv role members to, raises running fcv role members to)

-- What the read after the command must say.
abbrev pub Verified : Text → Reply Fcv → Type 0
Verified to after = (f : Fcv) × (after ≡ ok f) × (f.version ≡ to) × (f.target ≡ none)

pub Verified-raise : (to : Text) (after : Reply Fcv) → Verified to after → raise to after ≡ ok tt
unfolding raise
Verified-raise to after (f, e, v, t) = rw e (ground (arith, t, (text_eq_iff f.version to).1 v))

-- A raise counts exactly when the read after it names the target with no transition in flight,
-- whatever the command itself answered.
pub raise-Verified_iff :
    (to : Text) (after : Reply Fcv) → (raise to after ≡ ok tt) ↔ Verified to after
unfolding raise
raise-Verified_iff to (err e) = (λ h. absurd (ground (arith, h)), Verified-raise to (err e))
raise-Verified_iff to (ok f) = (
  λ h. (f, refl, ground (arith, h, text_eq_iff f.version to), ground (arith, h)),
  Verified-raise to (ok f),
)
