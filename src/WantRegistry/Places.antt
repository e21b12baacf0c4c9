-- ===== src/WantRegistry/Places.antt =====
-- The locations of wants and haves: concordia/want_registry.py.
use concordia_protocol.Prelude.{Bool, true, false, ◌&&◌, Option, none, some}
use concordia_protocol.Prelude.Dict.{Dict, get}
use concordia_protocol.WantRegistry.{
  Numbers, Value, null, num, number, Place, inner, value, Location, object, not_object,
}

module _ (H : Numbers) where
  -- `value is not None and not _is_number(value)` refuses.
  unfoldable pub is_number_or_none : Value H.Num → Bool
  is_number_or_none null = true
  is_number_or_none (num _) = true
  is_number_or_none _ = false

  unfoldable pub valid_coord : Option (Value H.Num) → Bool
  valid_coord none = true
  valid_coord (some v) = is_number_or_none v

  unfoldable pub valid_container : Option (Place H.Num) → Bool
  valid_container none = true
  valid_container (some (value _)) = false
  valid_container (some (inner d)) = valid_coord (get d "lat") && valid_coord (get d "lng")

  unfoldable pub valid_place : Option (Place H.Num) → Bool
  valid_place none = true
  valid_place (some (value v)) = is_number_or_none v
  valid_place (some (inner _)) = false

  -- `_validate_location`: false is a ValueError.
  unfoldable pub validate_location : Option (Location H.Num) → Bool
  validate_location none = true
  validate_location (some (not_object _)) = false
  validate_location (some (object d)) =
      valid_container (get d "coordinates")
      && valid_container (get d "of")
      && valid_place (get d "lat")
      && valid_place (get d "lng")
      && valid_place (get d "within_km")

  unfoldable pub both : Option H.Num → Option H.Num → Option (H.Num × H.Num)
  both (some lat) (some lng) = some (lat, lng)
  both _ _ = none

  unfoldable pub number_at : Option (Value H.Num) → Option H.Num
  number_at none = none
  number_at (some v) = number v

  unfoldable pub place_number : Option (Place H.Num) → Option H.Num
  place_number (some (value v)) = number v
  place_number _ = none

  unfoldable pub coords_in : Place H.Num → Option (H.Num × H.Num)
  coords_in (value _) = none
  coords_in (inner d) = both (number_at (get d "lat")) (number_at (get d "lng"))

  unfoldable pub extract_coords : Dict (Place H.Num) → Option (H.Num × H.Num)
  extract_coords d = elim (get d "coordinates") [
    | some place ↦ coords_in place
    | none ↦ elim (get d "of") [
      | some place ↦ coords_in place
      | none ↦ both (place_number (get d "lat")) (place_number (get d "lng"))
    ]
  ]

  abbrev pub earth_radius_km : H.Num
  earth_radius_km = H.of_ℕ 6371

  unfoldable pub squared : H.Num → H.Num
  squared n = H.mul n n

  -- Great-circle distance between two points.
  unfoldable pub haversine_km : H.Num → H.Num → H.Num → H.Num → H.Num
  haversine_km lat1 lng1 lat2 lng2 =
      let half_lat = H.div (H.sub (H.radians lat2) (H.radians lat1)) (H.of_ℕ 2) in
      let half_lng = H.div (H.sub (H.radians lng2) (H.radians lng1)) (H.of_ℕ 2) in
      let a = H.add (squared (H.sin half_lat)) (
        H.mul (H.mul (H.cos (H.radians lat1)) (H.cos (H.radians lat2)))
          (squared (H.sin half_lng))) in
      H.mul (H.mul (H.of_ℕ 2) earth_radius_km) (H.asin (H.sqrt a))

  unfoldable pub measure :
      Option H.Num → Option (H.Num × H.Num) → Option (H.Num × H.Num) → Bool × Option H.Num
  measure radius (some (lat, lng)) (some (lat', lng')) =
      let dist = haversine_km lat lng lat' lng' in
      (elim radius [ none ↦ true | some r ↦ H.leb_num dist r ], some dist)
  measure radius _ _ = (true, none)

  -- The model is of locations that `_validate_location` has let pass: each is an object.
  unfoldable pub locations_compatible :
      Option (Location H.Num) → Option (Location H.Num) → Bool × Option H.Num
  locations_compatible (some (object w)) (some (object h)) =
      measure (place_number (get w "within_km")) (extract_coords w) (extract_coords h)
  locations_compatible _ _ = (true, none)
