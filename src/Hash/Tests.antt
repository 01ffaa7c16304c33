-- ===== src/Hash/Tests.antt =====
-- A hash and its text.
use model_id.Base.{◌≡◌, refl, ◌++◌, nat_eq}
use model_id.Base.Text.{Text, codes}
use model_id.Base.Results.{ok}
use model_id.Hash.{Blake3Hash, from_hex}

abbrev sixteen : Text
sixteen = codes "0123456789abcdef"

abbrev sample : Blake3Hash
sample = record { hex = sixteen ++ sixteen ++ sixteen ++ sixteen }

read_in_capitals : from_hex (codes "0123456789ABCDEF" ++ sixteen ++ sixteen ++ sixteen) ≡ ok sample
unfolding from_hex nat_eq
read_in_capitals = refl
