-- ===== src/Mainnet/Coverage.antt =====
-- src/mainnet_read.rs: `evaluate_protection_coverage` and `is_stop_for_position`. The parsing of a
-- decimal is a parameter; a sum that the decimal arithmetic cannot hold is a panic, `none`.
pub mod Eligible
pub mod Stops
use hyperliquid_live_executo.Base.{
  Bool, true, false, not, ◌&&◌, ◌||◌, List, [], ◌∷◌, String, Option, none, some, str_eq, length,
  select, if◌then◌else◌,
}
use hyperliquid_live_executo.Decimal.{DecimalOps}
use hyperliquid_live_executo.Decimal
use hyperliquid_live_executo.Mainnet.{
  MainnetPositionSnapshot, MainnetOpenOrderSnapshot, MainnetProtectionCoverage,
}

-- `BTreeMap::get`
abbrev pub lookup : String → List (String × String) → Option String
lookup k [] = none
lookup k ((j, v) ∷ m) = if str_eq j k then some v else lookup k m

abbrev pub cons : {A : Type 0} → Option A → Option (List A) → Option (List A)
cons (some x) (some xs) = some (x ∷ xs)
cons _ _ = none

module _ {D : Type 0} (ops : DecimalOps D) (parse : String → Option D) where
  abbrev triggers_for : MainnetPositionSnapshot D → MainnetOpenOrderSnapshot D → D → D → Bool
  triggers_for position order reference_price trigger_price =
      str_eq order.coin position.coin
      && order.reduce_only
      && order.is_trigger
      && ((ops.is_sign_positive position.signed_size
            && str_eq order.side "A"
            && Decimal.lt ops trigger_price reference_price)
          || (not (ops.is_sign_positive position.signed_size)
              && str_eq order.side "B"
              && Decimal.gt ops trigger_price reference_price))

  unfoldable pub is_stop_for_position :
      MainnetPositionSnapshot D → MainnetOpenOrderSnapshot D → D → Bool
  is_stop_for_position position order reference_price = elim order.trigger_price [
    | none ↦ false
    | some trigger_price ↦ triggers_for position order reference_price trigger_price
  ]

  -- `.or(position.entry_price)`
  abbrev pub or_entry : Option D → Option D → Option D
  or_entry none entry = entry
  or_entry (some mid) entry = some mid

  abbrev pub parsed : Option String → Option D
  parsed none = none
  parsed (some text) = parse text

  abbrev pub reference_of : List (String × String) → MainnetPositionSnapshot D → Option D
  reference_of mids position = or_entry (parsed (lookup position.coin mids)) position.entry_price

  abbrev pub stops_at :
      List (MainnetOpenOrderSnapshot D)
      → MainnetPositionSnapshot D
      → Option D
      → List (MainnetOpenOrderSnapshot D)
  stops_at orders position none = []
  stops_at orders position (some reference_price) =
      select (λ order. is_stop_for_position position order reference_price) orders

  -- `.sum::<Decimal>()`, from the left.
  abbrev pub total_size : D → List (MainnetOpenOrderSnapshot D) → Option D
  total_size acc [] = some acc
  total_size acc (o ∷ os) = elim (ops.add acc o.size) [
    | none ↦ none
    | some next ↦ total_size next os
  ]

  abbrev coverage_reason : Bool → Option D → Option String
  coverage_reason true reference_price = none
  coverage_reason false none = some "missing_protection_reference_price"
  coverage_reason false (some _) = some "insufficient_reduce_only_stop_coverage"

  abbrev coverage_of :
      MainnetPositionSnapshot D
      → List (MainnetOpenOrderSnapshot D)
      → Option D
      → D
      → MainnetProtectionCoverage D
  coverage_of position eligible reference_price covered_size =
      let covered : Bool = Decimal.ge ops covered_size (ops.abs position.signed_size) in
      record {
        coin = position.coin;
        required_size = ops.abs position.signed_size;
        covered_size = covered_size;
        stop_order_count = length eligible;
        covered = covered;
        reason_code = coverage_reason covered reference_price;
      }

  abbrev pub cover :
      List (MainnetOpenOrderSnapshot D)
      → List (String × String)
      → MainnetPositionSnapshot D
      → Option (MainnetProtectionCoverage D)
  cover orders mids position =
      let reference_price = reference_of mids position in
      let eligible = stops_at orders position reference_price in
      elim (total_size ops.zero eligible) [
        | none ↦ none
        | some size ↦ some (coverage_of position eligible reference_price size)
      ]

  unfoldable pub evaluate_protection_coverage :
      List (MainnetPositionSnapshot D)
      → List (MainnetOpenOrderSnapshot D)
      → List (String × String)
      → Option (List (MainnetProtectionCoverage D))
  evaluate_protection_coverage [] orders mids = some []
  evaluate_protection_coverage (p ∷ ps) orders mids =
      let rest = evaluate_protection_coverage ps orders mids in
      if ops.is_zero p.signed_size then rest else cons (cover orders mids p) rest
