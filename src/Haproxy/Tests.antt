-- ===== src/Haproxy/Tests.antt =====
-- The stats page of an edge, and its nodes.
use mongo_ha.Base.{In, ◌≡◌, refl, ◌↔◌, inl, inr, false, none, some, [], ◌∷◌, map, arith}
use mongo_ha.Text.{Text, codes, text_eq}
use mongo_ha.Text.Trim
use mongo_ha.Text.Split.{split, first_piece, split_once, join}
use mongo_ha.Text.Number
use mongo_ha.Haproxy.{
  invalid_format, parse_nodes, proxy_runs, proxy_exited, no_primary, exit, monitor,
}
use mongo_ha.Haproxy.Edge.{entry_text, node_at, parse_nodes-join, ExitsClean, monitor-exit_iff}

two_nodes :
    parse_nodes (codes "mongo-1.internal:27017, mongo-2:27018")
    ≡ inl (
        record { name = codes "mongo-1"; host = codes "mongo-1.internal"; mongo_port = 27017 }
        ∷ record { name = codes "mongo-2"; host = codes "mongo-2"; mongo_port = 27018 }
        ∷ [])
unfolding parse_nodes split split_once Trim.trim Number.parse_unsigned first_piece
two_nodes = refl

trailing_comma : parse_nodes (codes "mongo-1:27017,") ≡ inr (invalid_format [])
unfolding parse_nodes split split_once Trim.trim Number.parse_unsigned
trailing_comma = refl

abbrev down_page : Text
down_page =
    codes
      "mongo_primary_backend,mongo-1,,,,,,,,,,,,,,,,DOWN,\nmongo_primary_backend,BACKEND,,,,,,,,,,,,,,,,UP,\n"

abbrev up_page : Text
up_page = codes "mongo_primary_backend,mongo-1,,,,,,,,,,,,,,,,UP,\n"

no_primary_once :
    monitor false (
      (proxy_runs, some down_page)
      ∷ (proxy_runs, some down_page)
      ∷ (proxy_runs, some up_page)
      ∷ (proxy_runs, none)
      ∷ (proxy_runs, some down_page)
      ∷ (proxy_exited (some 0), none)
      ∷ [])
    ≡ no_primary ∷ no_primary ∷ exit 0 ∷ []
unfolding monitor split text_eq
no_primary_once = refl

monitor-exit_iff_example :
    In (exit 0) (monitor false ((proxy_runs, none) ∷ (proxy_exited (some 0), none) ∷ []))
    ↔ ExitsClean ((proxy_runs, none) ∷ (proxy_exited (some 0), none) ∷ [])
monitor-exit_iff_example =
    monitor-exit_iff false ((proxy_runs, none) ∷ (proxy_exited (some 0), none) ∷ [])

parse_nodes-join_example :
    parse_nodes (join b',' (map entry_text ((codes "m.a", 27017) ∷ (codes "n", 1) ∷ [])))
    ≡ inl (map node_at ((codes "m.a", 27017) ∷ (codes "n", 1) ∷ []))
unfolding Trim.is_whitespace
parse_nodes-join_example =
    parse_nodes-join (codes "m.a", 27017) ((codes "n", 1) ∷ [])
      (((refl, refl, refl), ((refl, refl, refl), ((refl, refl, refl), tt))), omega arith)
      ((((refl, refl, refl), tt), omega arith), tt)
