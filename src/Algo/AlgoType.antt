-- ===== src/Algo/AlgoType.antt =====
-- sources/algo/algo_type.hpp and algo_type.cpp: the algorithms and their names.
use luminousminer.Prelude.{◌≡◌, refl, if◌then◌else◌}
use luminousminer.Prelude.Text.{Text, codes, text_eq}

pub data Algorithm : Type 0 where
  unknown sha256 ethash etchash progpow progpowquai progpowz kawpow meowpow : Algorithm
  firopow evrprogpow autolykos_v2 blake3 kheavyhash : Algorithm

pub to_string : Algorithm → Text
to_string sha256 = codes "sha256"
to_string ethash = codes "ethash"
to_string etchash = codes "etchash"
to_string progpow = codes "progpow"
to_string progpowquai = codes "progpow-quai"
to_string progpowz = codes "progpowz"
to_string kawpow = codes "kawpow"
to_string meowpow = codes "meowpow"
to_string firopow = codes "firopow"
to_string evrprogpow = codes "evrprogpow"
to_string autolykos_v2 = codes "autolykosv2"
to_string blake3 = codes "blake3"
to_string kheavyhash = codes "kheavyhash"
to_string unknown = codes "unknown"

unfoldable pub to_enum : Text → Algorithm
to_enum s =
    if text_eq s (codes "sha256")
    then sha256
    else if text_eq s (codes "ethash")
    then ethash
    else if text_eq s (codes "etchash")
    then etchash
    else if text_eq s (codes "progpow")
    then progpow
    else if text_eq s (codes "progpow-quai")
    then progpowquai
    else if text_eq s (codes "progpowz")
    then progpowz
    else if text_eq s (codes "kawpow")
    then kawpow
    else if text_eq s (codes "meowpow")
    then meowpow
    else if text_eq s (codes "firopow")
    then firopow
    else if text_eq s (codes "evrprogpow")
    then evrprogpow
    else if text_eq s (codes "autolykosv2")
    then autolykos_v2
    else if text_eq s (codes "blake3")
    then blake3
    else if text_eq s (codes "kheavyhash")
    then kheavyhash
    else unknown

-- Reading back the name of an algorithm gives that algorithm.
pub to_enum-to_string : (a : Algorithm) → to_enum (to_string a) ≡ a
unfolding to_enum to_string
to_enum-to_string unknown = refl
to_enum-to_string _ = refl
