-- ===== src/Tests/Concrete.antt =====
-- Small hosts for the parameters of the development: JSON values of a few shapes, numbers for doubles.
use luminousminer.Prelude.{
  ℕ, ◌*◌, Bool, true, false, List, [], ◌∷◌, ◌++◌, map, Option, none, some, ltb, leb, if◌then◌else◌,
  replicate,
}
use luminousminer.Prelude.Int.{pos}
use luminousminer.Prelude.Text.{Text, codes, text_eq}
use luminousminer.Algo.AlgoType.{ethash}
use luminousminer.Stratum.JobInfo.{JobInfo, empty_job}
use luminousminer.Stratum.Host.{Host}
use luminousminer.Stratum.Session.{Stratum, ethereum_v1, World}
use luminousminer.Stratum.NewStratum.{fresh_stratum}
use luminousminer.Device.Chrono.{us}
use luminousminer.Device.Statistical.{Doubles, Statistical}

pub data Json : Type 0 where
  null : Json
  truth : Bool → Json
  whole : ℕ → Json
  string : Text → Json
  items : List Text → Bool → Json
  message : Text → List Text → Json
  reply : ℕ → Bool → Json
  told : Text → Text → Json

abbrev pub json_find : Json → Text → Option Json
json_find (message m ps) key =
    if text_eq key (codes "method")
    then some (string m)
    else if text_eq key (codes "params")
    then some (items ps true)
    else none
json_find (reply id b) key =
    if text_eq key (codes "id")
    then some (whole id)
    else if text_eq key (codes "result")
    then some (truth b)
    else none
json_find (told m p) key =
    if text_eq key (codes "method")
    then some (string m)
    else if text_eq key (codes "params")
    then some (string p)
    else none
json_find _ key = none

abbrev pub json_string : Json → Option Text
json_string (string t) = some t
json_string _ = none

abbrev pub json_bool : Json → Option Bool
json_bool (truth b) = some b
json_bool _ = none

abbrev pub json_array : Json → Option (List Json)
json_array (items ts b) = some (map string ts ++ truth b ∷ [])
json_array _ = none

abbrev pub json_object : Json → Option Json
json_object (message m ps) = some (message m ps)
json_object (reply id b) = some (reply id b)
json_object (told m p) = some (told m p)
json_object _ = none

abbrev pub json_number : Json → Option ℕ
json_number (whole n) = some n
json_number _ = none

abbrev pub json_null : Json → Bool
json_null null = true
json_null _ = false

abbrev pub seed_text : Text
seed_text = replicate 64 b'0'

abbrev pub header_text : Text
header_text = replicate 64 b'7'

abbrev pub json_parse : Text → Option Json
json_parse t =
    if text_eq t (codes "login")
    then some (reply 2 true)
    else if text_eq t (codes "algorithm")
    then some (told (codes "smart_mining.set_algo") (codes "ethash"))
    else if text_eq t (codes "range")
    then some (told (codes "smart_mining.set_extra_nonce") (codes "a1b2"))
    else if text_eq t (codes "share")
    then some (reply 1000 true)
    else if text_eq t (codes "proxy")
    then some (reply 1 true)
    else if text_eq t (codes "nonce")
    then some (message (codes "mining.set_extranonce") (codes "a1b2" ∷ []))
    else if text_eq t (codes "target")
    then some (message (codes "mining.set_target") (header_text ∷ []))
    else if text_eq t (codes "notify")
    then some (message (codes "mining.notify") (codes "1f" ∷ seed_text ∷ header_text ∷ []))
    else none

abbrev pub small_host : Host
small_host = record {
  Value = Json;
  Double = ℕ;
  find = json_find;
  as_string = json_string;
  as_bool = json_bool;
  as_array = json_array;
  as_object = json_object;
  as_double = λ v. none;
  as_uint64 = json_number;
  as_int64 = λ v. none;
  is_null = json_null;
  parse = json_parse;
  truncate = λ w d. d;
  truncate_int32 = λ d. pos d;
  of_number = λ n. n;
  of_int = λ z. 0;
  double_le = leb;
  double_lt = ltb;
  double_mul = λ a b. a * b;
  double_div = λ a b. a;
  double_round = λ a. a;
  literal = λ n k. n;
  double_to_hash = λ d. some (replicate 32 d);
  keccak = λ h. h;
}

abbrev pub small_stratum : Stratum
small_stratum = record (fresh_stratum ethereum_v1 ethash) {
  uuid = 4;
  wallet = codes "w";
  worker_name = codes "rig";
  password = codes "x";
  dispatches = true;
  reports = true;
}

abbrev pub small_world : World Json
small_world = record { stratum = small_stratum; effects = [] }

abbrev pub small_doubles : Doubles
small_doubles = record {
  Double = ℕ;
  of_count = λ n. n;
  times = λ a b. a * b;
  over = λ a b. a;
  is_positive = λ a. ltb 0 a;
}

abbrev pub small_stats : Statistical small_doubles
small_stats = record {
  chrono_unit = us;
  chrono_time = 1000000;
  chrono = record { tm_start = 0; tm_end = 0 };
  shares = record { total = 0; invalid = 0; valid = 0 };
  batch_nonce = 0;
  elapsed = 0;
  hashrates = 0;
  kernel_executed = 0;
}

abbrev pub small_job : JobInfo
small_job = record empty_job { nonce = 1000; start_nonce = 1000; gap_nonce = 4096 }
