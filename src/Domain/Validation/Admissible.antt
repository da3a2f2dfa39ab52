-- ===== src/Domain/Validation/Admissible.antt =====
-- src/domain/trade_intent.rs: which intents `TradeIntent::validate` accepts.
use hyperliquid_live_executo.Base.{
  ◌+◌, ◌≡◌, ◌↔◌, false, not, ◌&&◌, ◌||◌, ltb, leb, ◌==◌, length, arith, ap, or_false,
}
use hyperliquid_live_executo.Base.Result.{ok, passed}
use hyperliquid_live_executo.Base.Text.{bytes, is_blank}
use hyperliquid_live_executo.Base.Time.{Timestamp, seconds}
use hyperliquid_live_executo.Decimal.{DecimalOps}
use hyperliquid_live_executo.Decimal.Order.{OrderLaws}
use hyperliquid_live_executo.Decimal
use hyperliquid_live_executo.Domain.Intent.{TradeIntent, trade_intent_schema_version}
use hyperliquid_live_executo.Domain.Validation.{
  valid_identifier, valid_symbol, not_positive, valid_take_profit, exit_direction_valid, validate,
}
use hyperliquid_live_executo.Domain.Validation.Conditions.{
  IsAdmissible, valid_identifier_iff, valid_symbol_iff, IsPositive-iff, le_iff, direction_iff,
  targets_iff,
}

module _ {D : Type 0} (ops : DecimalOps D) (laws : OrderLaws ops) where
  -- The tests of the code, each passed.
  record Passed (i : TradeIntent D) (now : Timestamp) : Type 0 where
    version : not (i.schema_version == trade_intent_schema_version) ≡ false
    strategy : not (valid_identifier i.strategy_id 64) ≡ false
    blank : is_blank i.strategy_version ≡ false
    size : ltb 64 (length (bytes i.strategy_version)) ≡ false
    instance_id : not (valid_identifier i.strategy_instance_id 128) ≡ false
    signal : not (valid_identifier i.signal_id 128) ≡ false
    account : not (valid_identifier i.account_id 64) ≡ false
    symbol : not (valid_symbol i.symbol) ≡ false
    notional : not_positive ops i.max_notional_usd ≡ false
    reference : not_positive ops i.reference_price ≡ false
    risk :
        (not_positive ops i.max_risk_usd || Decimal.gt ops i.max_risk_usd i.max_notional_usd)
        ≡ false
    slippage : not (leb 1 i.entry.max_slippage_bps && leb i.entry.max_slippage_bps 500) ≡ false
    stop : not_positive ops i.exit.stop_loss_price ≡ false
    targets : not (valid_take_profit ops i.exit.take_profit) ≡ false
    direction : not (exit_direction_valid ops i.side i.reference_price i.exit) ≡ false
    window : (ltb (now + seconds 30) i.created_at || leb i.expires_at i.created_at) ≡ false
    current : leb i.expires_at now ≡ false

  all-Passed : (i : TradeIntent D) (now : Timestamp) → validate ops i now ≡ ok tt → Passed i now
  unfolding validate
  all-Passed i now h =
      let (p0, h0) = passed _ _ _ h in
      let (p1, h1) = passed _ _ _ h0 in
      let (p2, h2) = passed _ _ _ h1 in
      let (p3, h3) = passed _ _ _ h2 in
      let (p4, h4) = passed _ _ _ h3 in
      let (p5, h5) = passed _ _ _ h4 in
      let (p6, h6) = passed _ _ _ h5 in
      let (p7, h7) = passed _ _ _ h6 in
      let (p8, h8) = passed _ _ _ h7 in
      let (p9, h9) = passed _ _ _ h8 in
      let (p10, h10) = passed _ _ _ h9 in
      let (p11, h11) = passed _ _ _ h10 in
      let (p12, h12) = passed _ _ _ h11 in
      let (p13, h13) = passed _ _ _ h12 in
      let (p14, h14) = passed _ _ _ h13 in
      let (p15, h15) = passed _ _ _ h14 in
      let (p16, h16) = passed _ _ _ h15 in
      record {
        version = p0;
        strategy = p1;
        blank = p2;
        size = p3;
        instance_id = p4;
        signal = p5;
        account = p6;
        symbol = p7;
        notional = p8;
        reference = p9;
        risk = p10;
        slippage = p11;
        stop = p12;
        targets = p13;
        direction = p14;
        window = p15;
        current = p16;
      }

  no_failure : (i : TradeIntent D) (now : Timestamp) → Passed i now → validate ops i now ≡ ok tt
  unfolding validate
  no_failure i now p = rw (
    p.version, p.strategy, p.blank, p.size, p.instance_id, p.signal, p.account, p.symbol,
    p.notional, p.reference, p.risk, p.slippage, p.stop, p.targets, p.direction, p.window,
    p.current,
  )

  sound : {i : TradeIntent D} {now : Timestamp} → Passed i now → IsAdmissible ops i now
  sound {i} {now} p = record {
    version = ground (arith, p.version);
    strategy = (valid_identifier_iff _ 64).0 (ground (arith, p.strategy));
    versioned = (p.blank, ground (arith, p.size));
    instance_id = (valid_identifier_iff _ 128).0 (ground (arith, p.instance_id));
    signal = (valid_identifier_iff _ 128).0 (ground (arith, p.signal));
    account = (valid_identifier_iff _ 64).0 (ground (arith, p.account));
    symbol = (valid_symbol_iff _).0 (ground (arith, p.symbol));
    notional = (IsPositive-iff ops laws _).0 p.notional;
    reference = (IsPositive-iff ops laws _).0 p.reference;
    risk = (
      (IsPositive-iff ops laws _).0 (or_false _ _ p.risk).0,
      (le_iff ops laws _ _).0 (or_false _ _ p.risk).1,
    );
    slippage = ground (arith, p.slippage);
    stop = (IsPositive-iff ops laws _).0 p.stop;
    targets = (targets_iff ops laws _).0 (ground (arith, p.targets));
    direction = (direction_iff ops laws i.side _ _).0 (ground (arith, p.direction));
    window = ground (arith, p.window);
    current = ground (arith, p.current);
  }

  complete : {i : TradeIntent D} {now : Timestamp} → IsAdmissible ops i now → Passed i now
  complete {i} {now} a = record {
    version = ground (arith, a.version);
    strategy = ap not ((valid_identifier_iff _ 64).1 a.strategy);
    blank = a.versioned.0;
    size = ground (arith, a.versioned);
    instance_id = ap not ((valid_identifier_iff _ 128).1 a.instance_id);
    signal = ap not ((valid_identifier_iff _ 128).1 a.signal);
    account = ap not ((valid_identifier_iff _ 64).1 a.account);
    symbol = ap not ((valid_symbol_iff _).1 a.symbol);
    notional = (IsPositive-iff ops laws _).1 a.notional;
    reference = (IsPositive-iff ops laws _).1 a.reference;
    risk = ground (
      arith,
      (IsPositive-iff ops laws i.max_risk_usd).1 a.risk.0,
      (le_iff ops laws i.max_risk_usd i.max_notional_usd).1 a.risk.1,
    );
    slippage = ground (arith, a.slippage);
    stop = (IsPositive-iff ops laws _).1 a.stop;
    targets = ap not ((targets_iff ops laws _).1 a.targets);
    direction = ap not ((direction_iff ops laws i.side _ _).1 a.direction);
    window = ground (arith, a.window);
    current = ground (arith, a.current);
  }

  -- `validate` accepts an intent exactly when it is admissible: schema version 1, well-formed
  -- identifiers and symbol of bounded length, a strategy version that is not blank and has at most
  -- 64 bytes, positive amounts with the risk at most the notional, a slippage of 1 to 500 basis
  -- points, at least one target, targets that together allocate 100 modulo 65536 (a single
  -- target may allocate nothing, which contracts/openapi.yaml does not allow), a stop on the losing
  -- and targets on the winning side of the reference price, a creation at most 30 seconds ahead, and
  -- an expiry after both the creation and the present. Decimals are assumed to be totally ordered.
  pub validate_iff :
      (i : TradeIntent D) (now : Timestamp) → (validate ops i now ≡ ok tt) ↔ IsAdmissible ops i now
  validate_iff i now = (λ h. sound (all-Passed i now h), λ a. no_failure i now (complete a))
