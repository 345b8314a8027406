-- ===== src/Stratum/Host.antt =====
-- What sources/stratum takes from outside of its own code: boost::json values, IEEE doubles, the
-- conversion of a difficulty into a hash, which rests on boost::multiprecision, and keccak.
-- A boost accessor that throws is `none`. `is_string`, `is_array` and the like hold exactly when the
-- accessor returns, as boost documents it, so they are defined by it.
use luminousminer.Prelude.{
  ℕ, suc, ◌-◌, ◌%◌, ◌^◌, Bool, true, false, List, [], ◌∷◌, Option, none, some,
}
use luminousminer.Prelude.Int.{ℤ, pos, negsuc, to_int32}
use luminousminer.Prelude.Text.{Text}
use luminousminer.Stratum.JobInfo.{Hash}

pub record Host : Type 1 where
  pub Value : Type 0
  pub Double : Type 0
  -- The value under a key of an object; `none` also where the value is no object.
  pub find : Value → Text → Option Value
  pub as_string : Value → Option Text
  pub as_bool : Value → Option Bool
  pub as_array : Value → Option (List Value)
  pub as_object : Value → Option Value
  pub as_double : Value → Option Double
  pub as_uint64 : Value → Option ℕ
  pub as_int64 : Value → Option ℤ
  pub is_null : Value → Bool
  -- `boost::json::parse`.
  pub parse : Text → Option Value
  -- A conversion of a double to an unsigned type of the given width.
  pub truncate : ℕ → Double → ℕ
  -- A conversion of a double to an int32_t.
  pub truncate_int32 : Double → ℤ
  pub of_number : ℕ → Double
  pub of_int : ℤ → Double
  -- The operators of double; `literal n k` is the constant n / 10 ^ k.
  pub double_le : Double → Double → Bool
  pub double_lt : Double → Double → Bool
  pub double_mul : Double → Double → Double
  pub double_div : Double → Double → Double
  pub double_round : Double → Double
  pub literal : ℕ → ℕ → Double
  -- `algo::toHash256(double)`, over boost::multiprecision, where `none` is an exception, and
  -- `algo::keccak`.
  pub double_to_hash : Double → Option Hash
  pub keccak : Hash → Hash

abbrev pub is_some {ℓ} : {A : Type ℓ} → Option A → Bool
is_some none = false
is_some (some a) = true

abbrev pub is_nil {ℓ} : {A : Type ℓ} → List A → Bool
is_nil [] = true
is_nil (x ∷ xs) = false

-- `static_cast` of an int64_t to an unsigned type of `w` bits.
abbrev pub wrap_int : ℕ → ℤ → ℕ
wrap_int w (pos n) = n % 2 ^ w
wrap_int w (negsuc n) = (2 ^ w - suc n % 2 ^ w) % 2 ^ w

module _ (H : Host) where
  open H use {Value, Double, as_double, as_uint64, as_int64}
  open H use {truncate, truncate_int32, of_number, of_int}

  -- `boostJsonGetNumber<T>` for an unsigned T of `w` bits.
  unfoldable pub get_number : ℕ → Value → Option ℕ
  get_number w v = elim (as_double v) [
    | some d ↦ some (truncate w d)
    | none ↦ elim (as_uint64 v) [
      | some n ↦ some (n % 2 ^ w)
      | none ↦ elim (as_int64 v) [ some z ↦ some (wrap_int w z) | none ↦ none ]
    ]
  ]

  -- `boostJsonGetNumber<int32_t>`.
  unfoldable pub get_int32 : Value → Option ℤ
  unfolding to_int32
  get_int32 v = elim (as_double v) [
    | some d ↦ some (truncate_int32 d)
    | none ↦ elim (as_uint64 v) [
      | some n ↦ some (to_int32 n)
      | none ↦ elim (as_int64 v) [ some z ↦ some (to_int32 (wrap_int 32 z)) | none ↦ none ]
    ]
  ]

  -- `boostJsonGetNumber<double>`.
  pub get_double : Value → Option Double
  get_double v = elim (as_double v) [
    | some d ↦ some d
    | none ↦ elim (as_uint64 v) [
      | some n ↦ some (of_number n)
      | none ↦ elim (as_int64 v) [ some z ↦ some (of_int z) | none ↦ none ]
    ]
  ]
