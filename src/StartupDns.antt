-- ===== src/StartupDns.antt =====
-- mongo-wrapper/src/startup_dns.rs: the wait for a name that resolves to this container.
use mongo_ha.Base.{
  ltb, if◌then◌else◌, ltb→ge, Bool-cases, is_some_and, any, Duration, from_secs, ℕ, zero, suc, ◌+◌,
  ◌*◌, ◌≤◌, ◌<◌, min, ◌≡◌, refl, ◌≢◌, inl, inr, Bool, true, false, not, ◌&&◌, Option, none, some,
  List, [], ◌∷◌, arith,
}

-- An address of a lookup, and whether a listener can be bound to it here.
pub record Address : Type 0 where
  pub is_unspecified : Bool
  pub is_multicast : Bool
  pub is_bindable : Bool

unfoldable pub is_local_address : Address → Bool
is_local_address ip = not ip.is_unspecified && not ip.is_multicast && ip.is_bindable

abbrev pub lookup_timeout : Duration
lookup_timeout = from_secs 2

-- How a lookup ends: after how long, and with which addresses, `none` for an error.
pub record Lookup : Type 0 where
  pub took : Duration
  pub addresses : Option (List Address)

unfoldable pub resolves_locally : Lookup → Bool
unfolding is_local_address
resolves_locally l =
    if ltb lookup_timeout l.took then false else is_some_and l.addresses (any is_local_address)

abbrev pub limit : Duration
limit = from_secs 120

abbrev pub poll : Duration
poll = from_secs 2

-- The loop from `elapsed` on, `resolve` by the time at which a lookup starts: `true` opens the data,
-- `false` is the refusal after 120 s, `none` is the end of the fuel. The limit interrupts a lookup
-- or the sleep after it.
unfoldable pub wait_from : (Duration → Lookup) → ℕ → Duration → Option Bool
unfolding resolves_locally
wait_from resolve zero elapsed = none
wait_from resolve (suc fuel) elapsed =
    let l = resolve elapsed in
    let ended = elapsed + min l.took lookup_timeout in
    let later = wait_from resolve fuel (ended + poll) in
    if ltb limit ended then some false else (if resolves_locally l then some true else later)

unfoldable pub wait_for_local_address : (Duration → Lookup) → Option Bool
unfolding wait_from
wait_for_local_address resolve = wait_from resolve 62 0

-- The data is opened only when a lookup that ended within 120 s named an address of this container.
pub record IsResolved (resolve : Duration → Lookup) : Type 0 where
  pub at : Duration
  pub in_limit : at + min (resolve at).took lookup_timeout ≤ limit
  pub is_resolved : resolves_locally (resolve at) ≡ true

wait_from-IsResolved :
    (resolve : Duration → Lookup) (fuel : ℕ) (elapsed : Duration)
    → wait_from resolve fuel elapsed ≡ some true
    → IsResolved resolve
unfolding wait_from
wait_from-IsResolved resolve zero elapsed h = cc
wait_from-IsResolved resolve (suc fuel) elapsed h =
    elim (Bool-cases (ltb limit (elapsed + min (resolve elapsed).took lookup_timeout))) [
      | inl e ↦ absurd (ground (arith, e, h))
      | inr e ↦ elim (Bool-cases (resolves_locally (resolve elapsed))) [
        | inl r ↦ record { at = elapsed; in_limit = ltb→ge _ _ e; is_resolved = r }
        | inr r ↦
            wait_from-IsResolved resolve fuel
              (elapsed + min (resolve elapsed).took lookup_timeout + poll) (rw (e, r) at h)
      ]
    ]

-- The dataset is opened only when a lookup that ended within 120 s named an address of this
-- container.
pub wait-IsResolved :
    (resolve : Duration → Lookup) → wait_for_local_address resolve ≡ some true → IsResolved resolve
unfolding wait_for_local_address
wait-IsResolved resolve h = wait_from-IsResolved resolve 62 0 h

-- Each round takes 2 s at least, so the fuel left covers the time left.
wait_from-ends :
    (resolve : Duration → Lookup) (fuel : ℕ) (elapsed : Duration)
    → elapsed ≤ limit + poll
    → limit + poll < elapsed + fuel * poll
    → wait_from resolve fuel elapsed ≢ none
unfolding wait_from
wait_from-ends resolve zero elapsed b h = absurd (omega (arith, b, h))
wait_from-ends resolve (suc fuel) elapsed b h =
    elim (Bool-cases (ltb limit (elapsed + min (resolve elapsed).took lookup_timeout))) [
      | inl e ↦ λ n. ground (arith, e, n)
      | inr e ↦ elim (Bool-cases (resolves_locally (resolve elapsed))) [
        | inl r ↦ λ n. ground (arith, e, r, n)
        | inr r ↦ λ n.
            wait_from-ends resolve fuel (elapsed + min (resolve elapsed).took lookup_timeout + poll)
              (omega (arith, ltb→ge limit (elapsed + min (resolve elapsed).took lookup_timeout) e))
              (omega (arith, h)) (rw (e, r) at n)
      ]
    ]

-- The wait comes to an end, whatever the lookups say.
pub wait_ends : (resolve : Duration → Lookup) → wait_for_local_address resolve ≢ none
unfolding wait_for_local_address
wait_ends resolve = wait_from-ends resolve 62 0 (omega arith) (omega arith)

abbrev remote : Lookup
remote = record { took = 0; addresses = some [] }

abbrev local_later : Duration → Lookup
local_later t = record {
  took = 5;
  addresses =
      if ltb t (from_secs 4)
      then none
      else some (record { is_unspecified = false; is_multicast = false; is_bindable = true } ∷ []);
}

opens_later : wait_for_local_address local_later ≡ some true
unfolding wait_for_local_address resolves_locally is_local_address
opens_later = refl

never_opens : wait_for_local_address (λ t. remote) ≡ some false
unfolding wait_for_local_address resolves_locally is_local_address
never_opens = refl
