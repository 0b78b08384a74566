-- ===== src/Credentials/Adopt/Disjoint.antt =====
-- When the boot's check replaces the pinned keyfile.
use mongo_ha.Base.{In, ◌≡◌, ◌⊎◌, true, Option, none, some, List}
use mongo_ha.Maps.{contains}
use mongo_ha.Text.{Text}
use mongo_ha.Peers.{RsState, PeerAnswer, state, not_ready}
use mongo_ha.Peers.Fetch.{Response, fetch_keyfile}
use mongo_ha.AuthPin.{AuthPin, not_ready}
use mongo_ha.Credentials.{contains}
use mongo_ha.Credentials.Adopt.{PeerSet, trim}

-- A peer that holds a set handed out this key for this password.
pub record IsHandedOut (s : PeerSet) (password keyfile : Text) : Type 0 where
  pub host : Text
  pub state_of : RsState
  pub answered : In (host, state state_of) s.answers
  pub holds : state_of.set_active ≡ true
  pub handed : fetch_keyfile (s.post password host) ≡ some keyfile

Found : (Text → Response Text) → List (Text × PeerAnswer) → Text → Type 0
Found post answers keyfile =
    (host : Text) × (st : RsState) × In (host, state st) answers
    × (st.set_active ≡ true)
    × (fetch_keyfile (post host) ≡ some keyfile)

module _ (parse_list : Text → Option (List Text)) where
  -- A keyfile holds a key: as an element of the JSON list, or as all there is but white space.
  abbrev pub Holds : Text → Text → Type 0
  Holds key keyfile =
      ((list : List Text) × (parse_list keyfile ≡ some list) × In key list)
      ⊎ ((parse_list keyfile ≡ none) × (key ≡ trim keyfile))

  -- The key that was taken over, and why.
  pub record IsAdopted (s : PeerSet) (p : AuthPin) (candidate_list : List Text) (keyfile : Text)
      : Type 0 where
    pub current : Text
    pub was_pinned : p.keyfile ≡ some current
    pub password : Text
    pub is_candidate : In password candidate_list
    pub handed_out : IsHandedOut s password keyfile
    pub disjoint : (key : Text) → Holds key current → Holds key keyfile → ⊥
