-- ===== src/Peers/Fetch.antt =====
-- mongo-wrapper/src/peers.rs: what the requests to a peer make of its responses.
use mongo_ha.Base.{
  ltb, leb, if◌then◌else◌, Option_filter, Duration, from_secs, ℕ, ◌+◌, max, Bool, not, ◌&&◌, Option,
  none, some,
}
use mongo_ha.Text.{Text, is_empty}
use mongo_ha.Text.Trim.{trim}
use mongo_ha.Peers.{RsState, PeerAnswer, state, not_ready, unreachable}

-- A response: the status, and the body when it can be read.
pub data Response {ℓ} (A : Type ℓ) : Type ℓ where
  responded : ℕ → Option A → Response A
  no_response : Response A

abbrev pub is_status_success : ℕ → Bool
is_status_success status = leb 200 status && ltb status 300

unfoldable pub query_peer : Response RsState → PeerAnswer
query_peer no_response = unreachable
query_peer (responded status none) = not_ready
query_peer (responded status (some body)) =
    if is_status_success status then state body else not_ready

abbrev pub password_probe_timeout : Duration
password_probe_timeout = from_secs 5

abbrev pub keyfile_fetch_margin : Duration
keyfile_fetch_margin = from_secs 2

unfoldable pub keyfile_fetch_timeout : Duration → Duration
keyfile_fetch_timeout peer_query_timeout =
    max peer_query_timeout (password_probe_timeout + keyfile_fetch_margin)

unfoldable pub fetch_keyfile : Response Text → Option Text
fetch_keyfile no_response = none
fetch_keyfile (responded status none) = none
fetch_keyfile (responded status (some body)) =
    if is_status_success status
    then Option_filter (λ s. not (is_empty s)) (some (trim body))
    else none
