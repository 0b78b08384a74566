-- ===== src/Rs/Decide.antt =====
-- mongo-wrapper/src/rs.rs: `standing_of` and the pure initiate decision, `decide`.
pub mod Spec
pub mod Election
use mongo_ha.Base.{
  ℕ, ◌-◌, ◌^◌, Bool, true, false, Option, none, some, List, [], ◌∷◌, ltb, if◌then◌else◌, any, find,
  find_map, or_else, unwrap_or,
}
use mongo_ha.Text.{Text}
use mongo_ha.Peers.{PeerAnswer, state, not_ready, unreachable}

-- One peer's standing in an initiate round.
pub data PeerStanding : Type 0 where
  in_set : Option Text → PeerStanding
  no_set : Bool → PeerStanding
  unknown : PeerStanding

pub data Verdict : Type 0 where
  join_existing : Option Text → Verdict
  safe_to_initiate : Verdict
  defer_to : Text → Verdict
  undecidable : Verdict

-- The tuple `(String, Option<usize>, PeerStanding)` of the source.
pub record Peer : Type 0 where
  pub host : Text
  pub rank : Option ℕ
  pub standing : PeerStanding

unfoldable pub standing_of : PeerAnswer → PeerStanding
standing_of (state s) = if s.set_active then in_set s.primary_host else no_set s.has_data
standing_of not_ready = unknown
standing_of unreachable = unknown

-- `usize::MAX` on the 64-bit targets that the image is built for.
abbrev pub usize_max : ℕ
usize_max = 2 ^ 64 - 1

abbrev pub is_in_set : PeerStanding → Bool
is_in_set (in_set p) = true
is_in_set (no_set d) = false
is_in_set unknown = false

abbrev pub is_unknown : PeerStanding → Bool
is_unknown (in_set p) = false
is_unknown (no_set d) = false
is_unknown unknown = true

-- The primary that a peer in a set knows of.
abbrev pub primary_of : PeerStanding → Option Text
primary_of (in_set p) = p
primary_of (no_set d) = none
primary_of unknown = none

-- The tie-break: user data first, the declared seed order second.
unfoldable pub peer_wins : Bool → Bool → ℕ → ℕ → Bool
peer_wins true false rank my_rank = true
peer_wins false true rank my_rank = false
peer_wins true true rank my_rank = ltb rank my_rank
peer_wins false false rank my_rank = ltb rank my_rank

-- Whether the loop returns at this peer.
unfoldable pub outranks_us : Bool → ℕ → Peer → Bool
unfolding peer_wins
outranks_us my_has_data my_rank p = elim p.standing [
  | in_set h ↦ false
  | no_set has_data ↦ peer_wins has_data my_has_data (unwrap_or p.rank usize_max) my_rank
  | unknown ↦ false
]

unfoldable pub decide : Bool → Option ℕ → List Peer → Verdict
unfolding outranks_us
decide my_has_data my_seed_rank peers = elim (find (λ p. is_in_set p.standing) peers) [
  | some p ↦
      join_existing (or_else (find_map (λ q. primary_of q.standing) peers) (primary_of p.standing))
  | none ↦
      if any (λ p. is_unknown p.standing) peers
      then undecidable
      else elim (find (outranks_us my_has_data (unwrap_or my_seed_rank usize_max)) peers) [
        | some p ↦ defer_to p.host
        | none ↦ safe_to_initiate
      ]
]
