-- ===== src/Mongo/Address.antt =====
-- mongo-wrapper/src/mongo.rs: `split_host_port`.
use mathlib.Core.List.{reverse}
use mongo_ha.Base.{
  ◌==◌, if◌then◌else◌, unwrap_or, any, ℕ, ◌^◌, ◌≡◌, refl, Bool, false, not, ◌||◌, none, some, [],
  ◌∷◌,
}
use mongo_ha.Text.{Text, codes}
use mongo_ha.Text.Split.{rsplit_once}
use mongo_ha.Text.Number.{parse_unsigned}

abbrev pub is_bracket : ℕ → Bool
is_bracket c = c == b'[' || c == b']'

unfoldable pub trim_brackets_start : Text → Text
trim_brackets_start [] = []
trim_brackets_start (c ∷ s) =
    let rest = trim_brackets_start s in if is_bracket c then rest else c ∷ s

-- `trim_matches`
unfoldable pub trim_brackets : Text → Text
unfolding trim_brackets_start
trim_brackets s = reverse (trim_brackets_start (reverse (trim_brackets_start s)))

abbrev pub starts_with_bracket : Text → Bool
starts_with_bracket [] = false
starts_with_bracket (c ∷ s) = c == b'['

unfoldable pub split_host_port : Text → Text × ℕ
unfolding trim_brackets
split_host_port addr = elim (rsplit_once b':' addr) [
  | none ↦ (addr, 27017)
  | some (h, p) ↦
      if not (any (λ c. c == b':') h) || starts_with_bracket h
      then (trim_brackets h, unwrap_or (parse_unsigned (2 ^ 16) p) 27017)
      else (addr, 27017)
]

bare_name : split_host_port (codes "mongo-0") ≡ (codes "mongo-0", 27017)
unfolding split_host_port rsplit_once
bare_name = refl

bracketed : split_host_port (codes "[fd12::1]:27018") ≡ (codes "fd12::1", 27018)
unfolding split_host_port rsplit_once parse_unsigned
bracketed = refl

bare_ipv6 : split_host_port (codes "fd12::1") ≡ (codes "fd12::1", 27017)
unfolding split_host_port rsplit_once
bare_ipv6 = refl
