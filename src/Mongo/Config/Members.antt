-- ===== src/Mongo/Config/Members.antt =====
-- The membership after a member is added or removed, as `config_member_hosts` reads it back.
use mongo_ha.Base.{
  Option-cases, All, all, filter, filter_map, All-In, filter_map-append, filter_map-filter,
  All-of_In, filter_map-In, In-filter_map, ◌≡◌, refl, sym, ap, ◌∙◌, ◌≢◌, inl, inr, true, not, some,
  List, [], ◌∷◌, ◌++◌, arith,
}
use mongo_ha.Text.{Text, codes, text_eq}
use mongo_ha.Text.Case.{eq_ignore_ascii_case}
use mongo_ha.Int64.{
  maximum-eq-none, ℤ, pos, i64_max, add_one, leb_ℤ, maximum, maximum_bounds, add_one-fresh,
  maximum-In,
}
use mongo_ha.Bson.{Documents, get_array}
use mongo_ha.Mongo.Config.{
  empty_members, ok, err, bson_int, next_config, member_id, member_host, next_id, new_member,
  config_with_member_added, stays, config_with_member_removed, config_member_hosts,
}
use mongo_ha.Mongo.Config.Laws.{NextConfig, next_config-NextConfig}

module _ (b : Documents) where
  open b use {
    Bson, Document, view, make, empty, get, insert, remove, view-make, get-empty, get-insert,
    get-remove,
  }

  member_host-new : (id : ℤ) (host : Text) → member_host b (new_member b id host) ≡ some host
  unfolding new_member text_eq
  member_host-new id host = simp (get-insert, view-make)

  member_id-new : (id : ℤ) (host : Text) → member_id b (new_member b id host) ≡ some id
  unfolding new_member text_eq bson_int
  member_id-new id host = simp (get-insert, view-make)

  abbrev pub added : Text → List Bson → List Bson
  added host members = members ++ new_member b (next_id b members) host ∷ []

  hosts_of_members :
      (d : Document) (ms : List Bson)
      → get_array b d (codes "members") ≡ some ms
      → config_member_hosts b d ≡ filter_map (member_host b) ms
  unfolding config_member_hosts
  hosts_of_members d ms e = rw e

  -- Adding a member appends its host to the membership and bumps the version, whatever the config
  -- held before.
  pub hosts-added :
      (current next : Document) (host : Text)
      → config_with_member_added b current host ≡ ok next
      → NextConfig b current next (added host)
        × (config_member_hosts b next ≡ config_member_hosts b current ++ host ∷ [])
  unfolding config_with_member_added
  hosts-added current next host h =
      let n = next_config-NextConfig b current (added host) next h in
      (
        n,
        (hosts_of_members next (added host n.members) n.edited
            ∙ filter_map-append (member_host b) n.members
                (new_member b (next_id b n.members) host ∷ [])
            ∙ (let e = member_host-new (next_id b n.members) host in
                ground (arith, e, hosts_of_members current n.members n.had_members))),
      )

  -- The id of the added member is no other member's, as long as no id is the greatest i64.
  pub added_id_fresh :
      (members : List Bson)
      → All (λ m. member_id b m ≢ some (pos i64_max)) members
      → All (λ m. member_id b m ≢ some (next_id b members)) members
  added_id_fresh members h =
      All-of_In (λ m. member_id b m ≢ some (next_id b members)) members
        λ m i e. elim (Option-cases (maximum (filter_map (member_id b) members))) [
          | inl n ↦
              maximum-eq-none (filter_map (member_id b) members) (next_id b members) n
                (filter_map-In (member_id b) members m (next_id b members) i e)
          | inr (k, n) ↦
              let (top, j, t) = In-filter_map (member_id b) members k (maximum-In _ k n) in
              add_one-fresh k (add_one k)
                (All-In (λ x. leb_ℤ x k ≡ true) (filter_map (member_id b) members) (add_one k)
                  (maximum_bounds (filter_map (member_id b) members) k n)
                  (filter_map-In (member_id b) members m (add_one k) i
                    (unfold next_id in ground (arith, e, n))))
                (λ q.
                  All-In (λ x. member_id b x ≢ some (pos i64_max)) members top h j (t ∙ ap some q))
                refl
        ]

  -- When a removal builds a config, that is a next config whose hosts are exactly the hosts of the
  -- current one other than the removed one, in their order, compared without regard to ASCII case.
  pub hosts-removed :
      (current next : Document) (host : Text)
      → config_with_member_removed b current host ≡ ok next
      → NextConfig b current next (filter (stays b host))
        × (config_member_hosts b next
            ≡ filter (λ h. not (eq_ignore_ascii_case h host)) (config_member_hosts b current))
  unfolding config_with_member_removed
  hosts-removed current next host h =
      let n = next_config-NextConfig b current (filter (stays b host)) next h in
      (
        n,
        hosts_of_members next (filter (stays b host) n.members) n.edited
            ∙ filter_map-filter (member_host b) (stays b host)
                (λ x. not (eq_ignore_ascii_case x host)) (λ m. unfold stays in refl) n.members
            ∙ ap (filter (λ x. not (eq_ignore_ascii_case x host)))
                (sym (hosts_of_members current n.members n.had_members)),
      )

  stays-none :
      (host : Text) (members : List Bson)
      → All
          (λ m. (h : Text) × (member_host b m ≡ some h) × (eq_ignore_ascii_case h host ≡ true))
          members
      → filter (stays b host) members ≡ []
  unfolding stays
  stays-none host [] all = refl
  stays-none host (m ∷ ms) ((h, e, q), all) = ground (arith, e, q, stays-none host ms all)

  -- From a config with a version and members that all have the host, its removal is refused: it would
  -- leave no member.
  pub removed-empty :
      (current : Document) (host : Text) (v : ℤ) (members : List Bson)
      → bson_int b (get current (codes "version")) ≡ some v
      → get_array b current (codes "members") ≡ some members
      → All
          (λ m. (h : Text) × (member_host b m ≡ some h) × (eq_ignore_ascii_case h host ≡ true))
          members
      → config_with_member_removed b current host ≡ err empty_members
  unfolding config_with_member_removed
  removed-empty current host v members e f all =
      unfold next_config in ground (arith, e, f, stays-none host members all)
