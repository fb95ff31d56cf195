-- ===== src/CheckPoint.antt =====
-- DEM/SQLCheckPoint.h and DEM/SQLCheckPoint.cc: at which points of a request errors are checked for.
pub mod Bits
use sql_handler.Outcome.{Result, ok, err, Outcome, done, raised, then_do, internal, undefined}
use sql_handler.Prelude.{
  ℕ, zero, suc, Bool, true, false, ◌||◌, Option, none, some, List, [], ◌∷◌, Text, ◌==◌, ltb,
  if◌then◌else◌,
}

-- `int`
pub data ℤ : Type 0 where
  pos negsuc : ℕ → ℤ

-- What `init` calls of other libraries: `BESUtil::explode` with the separator, and `atoi`.
pub record Parser : Type 0 where
  pub explode : Text → List Text
  pub atoi : Text → ℤ

-- The static members; the bit set as its bits.
pub record CheckPoint : Type 0 where
  pub is_set : Bool
  pub function : ℕ → Bool
  pub last_type_checked : ℕ
  pub last_status : Bool

-- _SQLH_CHECK_SIZE
abbrev pub check_size : ℕ
check_size = 6

-- What the static members start with.
unfoldable pub start : CheckPoint
start = record { is_set = false; function = λ n. false; last_type_checked = 0; last_status = false }

-- `val < _SQLH_CHECK_SIZE && val > 0`
abbrev pub allowed : ℤ → Option ℕ
allowed (negsuc n) = none
allowed (pos n) = if ltb n check_size then (if ltb 0 n then some n else none) else none

-- `function.set(val, true)`
abbrev pub set_bit : ℕ → CheckPoint → CheckPoint
set_bit v c = record c { function = λ n. if n == v then true else c.function n }

module _ (parser : Parser) where
  -- The inner loop of `init`.
  unfoldable pub set_values : CheckPoint → List Text → Outcome CheckPoint
  set_values c [] = done c
  set_values c (j ∷ tocheck) = elim (allowed (parser.atoi j)) [
    | none ↦ raised internal c
    | some v ↦ set_values (set_bit v c) tocheck
  ]

  -- The outer loop.
  unfoldable pub set_lines : CheckPoint → List Text → Outcome CheckPoint
  unfolding set_values
  set_lines c [] = done c
  set_lines c (i ∷ rest) = then_do (set_values c (parser.explode i)) λ c'. set_lines c' rest

  -- `init`, with what `get_values` finds under the key. Bits that were set before a throw stay set.
  unfoldable pub init : CheckPoint → Option (List Text) → Outcome CheckPoint
  unfolding set_lines
  init c set_check_p =
      if c.is_set
      then done c
      else let c' = record c { last_status = false; last_type_checked = suc check_size } in
        elim set_check_p [
          | none ↦ raised internal c'
          | some lines ↦ then_do (set_lines c' lines) λ d. done (record d { is_set = true })
        ]

-- `check`; an index behind the last bit is undefined.
unfoldable pub check : CheckPoint → ℕ → CheckPoint × Result Bool
check c type =
    if type == c.last_type_checked
    then (c, ok c.last_status)
    else if ltb type check_size
    then (
      record c { last_type_checked = type; last_status = c.function type },
      ok (c.function type),
    )
    else (record c { last_type_checked = type }, err undefined)
