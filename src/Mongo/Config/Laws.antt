-- ===== src/Mongo/Config/Laws.antt =====
-- What a reconfig changes and what it carries over.
use mongo_ha.Base.{List-cases, ◌≡◌, refl, ◌≢◌, inl, inr, Option, none, some, List, [], arith}
use mongo_ha.Text.{Text, codes, text_eq, text_eq_iff}
use mongo_ha.Int64.{ℤ, add_one}
use mongo_ha.Bson.{Documents, get_array}
use mongo_ha.Mongo.Config.{ok, bson_int, with_members, next_config}

module _ (b : Documents) where
  open b use {
    Bson, Document, view, make, empty, get, insert, remove, view-make, get-empty, get-insert,
    get-remove,
  }

  get_array-with_members :
      (current : Document) (v : ℤ) (ms : List Bson)
      → get_array b (with_members b current v ms) (codes "members") ≡ some ms
  unfolding text_eq
  get_array-with_members current v ms = simp (get-insert, view-make)

  -- The config that a reconfig sends: version bumped, no term, the edited members, all else as it was.
  pub record NextConfig (current next : Document) (edit : List Bson → List Bson) : Type 0 where
    pub version : ℤ
    pub members : List Bson
    pub had_version : bson_int b (get current (codes "version")) ≡ some version
    pub had_members : get_array b current (codes "members") ≡ some members
    pub bumped : bson_int b (get next (codes "version")) ≡ some (add_one version)
    pub no_term : get next (codes "term") ≡ none
    pub edited : get_array b next (codes "members") ≡ some (edit members)
    pub nonempty : edit members ≢ []
    pub carried :
        (key : Text)
        → key ≢ codes "version"
        → key ≢ codes "term"
        → key ≢ codes "members"
        → get next key ≡ get current key

  version-with_members :
      (current : Document) (v : ℤ) (ms : List Bson)
      → bson_int b (get (with_members b current v ms) (codes "version")) ≡ some (add_one v)
  unfolding bson_int text_eq
  version-with_members current v ms = simp (get-insert, get-remove, view-make)

  term-with_members :
      (current : Document) (v : ℤ) (ms : List Bson)
      → get (with_members b current v ms) (codes "term") ≡ none
  unfolding text_eq
  term-with_members current v ms = simp (get-insert, get-remove)

  carried-with_members :
      (current : Document) (v : ℤ) (ms : List Bson) (key : Text)
      → key ≢ codes "version"
      → key ≢ codes "term"
      → key ≢ codes "members"
      → get (with_members b current v ms) key ≡ get current key
  carried-with_members current v ms key nv nt nm =
      simp (get-insert, get-remove)
        (ground (
          arith,
          text_eq_iff (codes "version") key,
          text_eq_iff (codes "term") key,
          text_eq_iff (codes "members") key,
        ))

  built :
      {current next : Document} {edit : List Bson → List Bson} (v : ℤ) (ms : List Bson)
      → bson_int b (get current (codes "version")) ≡ some v
      → get_array b current (codes "members") ≡ some ms
      → edit ms ≢ []
      → next ≡ with_members b current v (edit ms)
      → NextConfig current next edit
  built {current} {next} {edit} v ms e f ne h = record {
    version = v;
    members = ms;
    had_version = e;
    had_members = f;
    bumped = rw h (version-with_members current v (edit ms));
    no_term = rw h (term-with_members current v (edit ms));
    edited = rw h (get_array-with_members current v (edit ms));
    nonempty = ne;
    carried = λ key nv nt nm. rw h (carried-with_members current v (edit ms) key nv nt nm);
  }

  -- A config that `next_config` builds has the current version plus one, no term, exactly the edited
  -- members, at least one of them, and every other top-level setting of the current config.
  pub next_config-NextConfig :
      (current : Document) (edit : List Bson → List Bson) (next : Document)
      → next_config b current edit ≡ ok next
      → NextConfig current next edit
  unfolding next_config
  next_config-NextConfig current edit next h =
      go (bson_int b (get current (codes "version"))) refl (get_array b current (codes "members"))
        refl
    where
      go :
          (v : Option ℤ)
          → bson_int b (get current (codes "version")) ≡ v
          → (ms : Option (List Bson)) → get_array b current (codes "members") ≡ ms
          → NextConfig current next edit
      go none e ms f = absurd (ground arith)
      go (some v) e none f = absurd (ground arith)
      go (some v) e (some ms) f = elim (List-cases (edit ms)) [
        | inl g ↦ absurd (ground arith)
        | inr (m, out, g) ↦ built v ms e f (λ n. ground (arith, n, g)) (ground (arith, h, e, f, g))
      ]
