-- ===== src/WrapperConfig/Tests.antt =====
-- An environment of a member, and its seeds.
use mongo_ha.Base.{if◌then◌else◌, ◌≡◌, refl, ◌↔◌, inl, none, some, List, [], ◌∷◌}
use mongo_ha.Text.{Text, codes, text_eq}
use mongo_ha.Text.Case
use mongo_ha.Text.Trim
use mongo_ha.Text.Split
use mongo_ha.Text.Number
use mongo_ha.WrapperConfig.{
  Env, Config, env_parse, private_domain_of, non_empty, config_of, from_env, seed_hosts, peer_hosts,
  my_seed_rank,
}
use mongo_ha.WrapperConfig.Validated.{IsComplete, from_env-built_iff}

abbrev entries : List (Text × Text)
entries =
    (codes "MONGO_INITDB_ROOT_USERNAME", codes "mongo")
    ∷ (codes "MONGO_INITDB_ROOT_PASSWORD", codes "secret")
    ∷ (codes "RS_SEEDS", codes "mongo-1:27017, mongo-2:27017,,Mongo-3")
    ∷ (codes "RS_KEY", codes "key")
    ∷ (codes "RAILWAY_PRIVATE_DOMAIN", codes "mongo-2")
    ∷ (codes "HEALTH_PORT", codes "nonsense")
    ∷ []

abbrev lookup : List (Text × Text) → Env
lookup [] name = none
lookup ((k, v) ∷ rest) name = if text_eq k name then some v else lookup rest name

abbrev member_env : Env
member_env = lookup entries

abbrev member_config : Config
member_config = config_of member_env (codes "mongo") (codes "secret")

seeds_in_order : seed_hosts member_config ≡ codes "mongo-1" ∷ codes "mongo-2" ∷ codes "Mongo-3" ∷ []
unfolding seed_hosts config_of non_empty text_eq Trim.trim Split.split Split.first_piece
seeds_in_order = refl

second_seed : my_seed_rank member_config ≡ some 1
unfolding my_seed_rank config_of non_empty text_eq Trim.trim Split.split Split.first_piece
    Case.eq_ignore_ascii_case private_domain_of
second_seed = refl

peers_of_second : peer_hosts member_config ≡ codes "mongo-1" ∷ codes "Mongo-3" ∷ []
unfolding peer_hosts config_of non_empty text_eq Trim.trim Split.split Split.first_piece
    Case.eq_ignore_ascii_case private_domain_of
peers_of_second = refl

default_port : member_config.health_port ≡ 8080
unfolding config_of env_parse text_eq Number.parse_unsigned
default_port = refl

from_env-built_iff_example : ((c : Config) × (from_env member_env ≡ inl c)) ↔ IsComplete member_env
from_env-built_iff_example = from_env-built_iff member_env
