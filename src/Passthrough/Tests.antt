-- ===== src/Passthrough/Tests.antt =====
-- The start command of the official image.
use mongo_ha.Base.{◌≡◌, refl, some, List, [], ◌∷◌}
use mongo_ha.Text.Trim
use mongo_ha.Text.{Text, codes, text_eq}
use mongo_ha.Text.Split
use mongo_ha.Text.Number
use mongo_ha.Passthrough.{option_name, merge_own_flags, passthrough_port}

abbrev own : List Text
own = codes "--bind_ip_all" ∷ codes "--ipv6" ∷ codes "--port" ∷ codes "27017" ∷ []

abbrev official : List Text
official = codes "--ipv6" ∷ codes "--bind_ip" ∷ codes "::,0.0.0.0" ∷ []

merged_official : merge_own_flags own official ≡ codes "--port" ∷ codes "27017" ∷ []
unfolding merge_own_flags Number.is_digit text_eq Split.first_piece
merged_official = refl

port_read_back : passthrough_port (codes "--port=27018" ∷ []) ≡ some 27018
unfolding passthrough_port option_name Number.is_digit text_eq Split.first_piece Split.split_once
    Number.parse_unsigned Trim.trim
port_read_back = refl
