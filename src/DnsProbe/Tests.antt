-- ===== src/DnsProbe/Tests.antt =====
-- A stale reply and then NXDOMAIN.
use mongo_ha.Base.{ℕ, ◌≡◌, refl, ◌↔◌, true, false, List, [], ◌∷◌}
use mongo_ha.Text.{codes}
use mongo_ha.Text.Split
use mongo_ha.DnsProbe.{gone, probe_name}
use mongo_ha.DnsProbe.Gone.{IsGone, probe_name-IsGone_iff}

abbrev packets : List (List ℕ)
packets =
    (0 ∷ 7 ∷ 0x81 ∷ 0 ∷ 0 ∷ 1 ∷ 0 ∷ 0 ∷ 0 ∷ 0 ∷ 0 ∷ 0 ∷ [])
    ∷ (0 ∷ 8 ∷ 0x81 ∷ 0x83 ∷ 0 ∷ 1 ∷ 0 ∷ 0 ∷ 0 ∷ 0 ∷ 0 ∷ 0 ∷ [])
    ∷ []

stale_then_gone : probe_name false true 8 (codes "mongo-2.railway.internal") packets ≡ gone
unfolding probe_name Split.split
stale_then_gone = refl

probe_name-IsGone_iff_example :
    (probe_name false true 8 (codes "mongo-2.railway.internal") packets ≡ gone)
    ↔ IsGone false true 8 (codes "mongo-2.railway.internal") packets
probe_name-IsGone_iff_example =
    probe_name-IsGone_iff false true 8 (codes "mongo-2.railway.internal") packets
