-- ===== src/Objects.antt =====
-- The date-time and price objects of libmama, as src/Payload.cpp and src/Field.cpp use them.
use open_mama_omnm.Prelude.{ℕ, ◌≡◌, ◌<◌, List, length}
use open_mama_omnm.Mama.{Status}

-- Code outside this repository. A floating-point or 64-bit number is its bytes, lowest first.
pub record Objects : Type 1 where
  pub DateTime : Type 0
  pub create_date_time : DateTime
  pub clear_date_time : DateTime → DateTime
  -- `setWithHints` with seconds, microseconds, precision and hints, and `getWithHints`
  pub set_with_hints : DateTime → ℕ → ℕ → ℕ → ℕ → DateTime
  pub get_with_hints : DateTime → ℕ × ℕ × ℕ × ℕ
  pub set_from_string : DateTime → List ℕ → Status × DateTime
  pub set_epoch_time_f64 : DateTime → List ℕ → Status × DateTime
  pub set_epoch_time_milliseconds : DateTime → List ℕ → Status × DateTime
  pub set_epoch_time_microseconds : DateTime → List ℕ → Status × DateTime
  pub Price : Type 0
  pub create_price : Price
  pub clear_price : Price → Price
  -- `setWithHints` with value and hints, `setValue`, `getValue` and `getHints`
  pub set_price_with_hints : Price → List ℕ → ℕ → Price
  pub set_price_value : Price → List ℕ → Price
  pub get_price_value : Price → List ℕ
  pub get_price_hints : Price → ℕ

-- What the getters show is in the range of its C type, the microseconds are less than a second, and the
-- getters show what the setters were given.
pub record IsFaithful (o : Objects) : Type 0 where
  pub ranges :
      (d : o.DateTime)
      → ((o.get_with_hints d).0 < 4294967296)
        × ((o.get_with_hints d).1 < 1000000)
        × ((o.get_with_hints d).2 < 256)
        × ((o.get_with_hints d).3 < 256)
  pub get-set :
      (d : o.DateTime) (seconds microseconds precision hints : ℕ)
      → seconds < 4294967296
      → microseconds < 1000000
      → precision < 256
      → hints < 256
      → o.get_with_hints (o.set_with_hints d seconds microseconds precision hints)
        ≡ (seconds, microseconds, precision, hints)
  pub value_width : (p : o.Price) → length (o.get_price_value p) ≡ 8
  pub hints_range : (p : o.Price) → o.get_price_hints p < 256
  pub value-set :
      (p : o.Price) (value : List ℕ) (hints : ℕ)
      → length value ≡ 8
      → o.get_price_value (o.set_price_with_hints p value hints) ≡ value
  pub hints-set :
      (p : o.Price) (value : List ℕ) (hints : ℕ)
      → hints < 256
      → o.get_price_hints (o.set_price_with_hints p value hints) ≡ hints
