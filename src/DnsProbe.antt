-- ===== src/DnsProbe.antt =====
-- mongo-wrapper/src/dns_probe.rs: the question, the reading of a reply, and the verdict on a name. A
-- name and a packet are lists of bytes.
pub mod Gone
mod Tests
use mongo_ha.Base.{
  ltb, leb, ◌==◌, if◌then◌else◌, ltb→lt, lt→ltb, leb→le, le→leb, leb→gt, ltb→ge, ==_iff, tests,
  Bool-cases, Option-cases, and_true, or_false, is_some, is_some_and, or_else, unwrap_or,
  Option_filter, and_then, Option_map, if_elim, All, Any, In, length, any, all, find, filter, count,
  position, length-append, count-le-length, find-eq-some, find-eq-none, any-eq-false, any-eq-true,
  all-eq-true, find_map, filter_map, All-append, All-In, Any-In, In-filter, In-map, List-cases,
  filter_map-append, filter_map-filter, filter-append, All-of_In, filter_map-In, In-filter_map,
  In-append_left, In-append_right, In-append, In-guard, guard-In, append_nil, append_assoc,
  Duration, Instant, nanos_per_sec, from_secs, from_millis, as_secs, duration_since, ℕ, zero, suc,
  ◌+◌, ◌-◌, ◌*◌, ◌/◌, ◌%◌, ◌^◌, ◌≤◌, ◌<◌, min, max, String, ◌≡◌, refl, sym, ap, ◌∙◌, ◌≢◌, ◌↔◌, ◌⊎◌,
  inl, inr, Bool, true, false, not, ◌&&◌, ◌||◌, Option, none, some, List, [], ◌∷◌, ◌++◌, map, arith,
}
use mongo_ha.Text.{Text, codes}
use mongo_ha.Text.Split.{split}

pub data NameVerdict : Type 0 where
  gone exists_or_unknown : NameVerdict

-- `strip_suffix('.').unwrap_or(name)`
unfoldable pub strip_dot : Text → Text
strip_dot [] = []
strip_dot (c ∷ []) = if c == b'.' then [] else c ∷ []
strip_dot (c ∷ d ∷ s) = c ∷ strip_dot (d ∷ s)

abbrev pub label_fits : Text → Bool
label_fits label = not (length label == 0) && leb (length label) 63

abbrev pub labels_bytes : List Text → List ℕ
labels_bytes [] = []
labels_bytes (l ∷ ls) = length l ∷ l ++ labels_bytes ls

-- A u16, most significant byte first.
abbrev pub be_bytes : ℕ → List ℕ
be_bytes id = id / 256 % 256 ∷ id % 256 ∷ []

unfoldable pub encode_query : ℕ → Text → Option (List ℕ)
unfolding strip_dot
encode_query id name =
    let bare = strip_dot name in
    if length bare == 0 || ltb 255 (length bare) || not (all label_fits (split b'.' bare))
    then none
    else some (
        be_bytes id
        ++ (1 ∷ 0 ∷ 0 ∷ 1 ∷ 0 ∷ 0 ∷ 0 ∷ 0 ∷ 0 ∷ 0 ∷ [])
        ++ labels_bytes (split b'.' bare)
        ++ (0 ∷ 0 ∷ 0x1c ∷ 0 ∷ 1 ∷ []))

unfoldable pub decode_rcode : ℕ → List ℕ → Option ℕ
decode_rcode id (b0 ∷ b1 ∷ flags ∷ code ∷ rest) =
    if leb 8 (length rest) && b0 == id / 256 % 256 && b1 == id % 256 && flags / 128 % 2 == 1
    then some (code % 16)
    else none
decode_rcode id _ = none

-- The packets that arrive before the deadline, in order: the first that matches answers.
unfoldable pub query_rcode : ℕ → Text → List (List ℕ) → Option ℕ
unfolding encode_query decode_rcode
query_rcode id name replies =
    and_then (encode_query id name) (λ packet. find_map (decode_rcode id) replies)

abbrev pub verdict_of_rcode : Option ℕ → NameVerdict
verdict_of_rcode none = exists_or_unknown
verdict_of_rcode (some rcode) = if rcode == 3 then gone else exists_or_unknown

-- Whether the name is an IP literal, and whether there is a resolver, are answers of the standard
-- library and of the container.
unfoldable pub probe_name : Bool → Bool → ℕ → Text → List (List ℕ) → NameVerdict
unfolding query_rcode
probe_name is_ip has_resolver id name replies =
    if is_ip
    then exists_or_unknown
    else (if has_resolver
        then verdict_of_rcode (query_rcode id name replies)
        else exists_or_unknown)
