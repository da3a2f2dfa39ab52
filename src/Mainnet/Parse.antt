-- ===== src/Mainnet/Parse.antt =====
-- src/mainnet_read.rs: the errors of the service, the parsing of decimals, and the records made of
-- fills, funding payments and order updates. The parsing of a text as a decimal is a parameter.
use hyperliquid_live_executo.Base.{
  ℕ, Bool, true, false, List, [], ◌∷◌, String, Option, none, some, ◌&&◌, ◌==◌, length, all, codes,
  if◌then◌else◌,
}
use hyperliquid_live_executo.Base.Text.{
  bytes, encode, is_ascii_hexdigit, strip_prefix, to_ascii_lowercase,
}
use hyperliquid_live_executo.Base.Result.{Result, ok, err, panic, ◌>>=◌, ◌>>◌}
use hyperliquid_live_executo.Mainnet.{
  MainnetFillRecord, MainnetFundingRecord, MainnetOrderUpdateRecord, MainnetHistoryBatch,
}
use hyperliquid_live_executo.Mainnet.Sdk.{TradeInfo, UserFunding, OrderUpdate}

-- The texts of `ReconciliationMismatch`, by what they print.
pub data Mismatch (D : Type 0) : Type 0 where
  no_detail : ℕ → Mismatch D
  detail_differs : ℕ → Mismatch D
  unknown_coin : String → Mismatch D
  notional_differs : D → D → Mismatch D

pub data MainnetReadError (D : Type 0) : Type 0 where
  invalid_address : MainnetReadError D
  sdk : String → MainnetReadError D
  -- the field and the value
  invalid_decimal : String → String → MainnetReadError D
  persistence : String → MainnetReadError D
  reconciliation_mismatch : Mismatch D → MainnetReadError D

abbrev pub Read : Type 0 → Type 0 → Type 0
Read D A = Result (MainnetReadError D) A

-- `MainnetReadAdapter::new`: the address in lower case, if it is one.
unfoldable pub new_adapter : {D : Type 0} → String → Read D String
unfolding to_ascii_lowercase
new_adapter account_address =
    let normalized : String = to_ascii_lowercase account_address in
    let is_address : Bool = elim (strip_prefix (b'0' ∷ b'x' ∷ []) (codes normalized)) [
      | none ↦ false
      | some digits ↦ length (bytes normalized) == 42 && all is_ascii_hexdigit (encode digits)
    ] in
    if is_address then ok normalized else err invalid_address

module _ {D A : Type 0} where
  -- `.map_err(|error| MainnetReadError::Sdk(error.to_string()))`
  abbrev pub from_sdk : Result String A → Read D A
  from_sdk (ok a) = ok a
  from_sdk (err e) = err (sdk e)
  from_sdk panic = panic

-- `self.account_address.parse()`, by whether it is an address.
abbrev pub parsed_address : {D : Type 0} → Bool → Read D (Unit {0})
parsed_address true = ok tt
parsed_address false = err invalid_address

module _ {D A B : Type 0} where
  -- `.into_iter().map(f).collect::<Result<Vec<_>, _>>()`
  unfoldable pub collect : (A → Read D B) → List A → Read D (List B)
  collect f [] = ok []
  collect f (x ∷ xs) = let rest = collect f xs in do y ← f x; ys ← rest; ok (y ∷ ys)

module _ {D : Type 0} (parse : String → Option D) where
  unfoldable pub decimal : String → String → Read D D
  decimal field value = elim (parse value) [
    | none ↦ err (invalid_decimal field value)
    | some d ↦ ok d
  ]

  unfoldable pub optional_decimal : String → Option String → Read D (Option D)
  unfolding decimal
  optional_decimal field none = ok none
  optional_decimal field (some value) = do d ← decimal field value; ok (some d)

  -- The four texts of a fill, under the names of its source.
  abbrev fill_record : String → String → String → String → TradeInfo → Read D (MainnetFillRecord D)
  fill_record px sz pnl fees fill = do
    price ← decimal px fill.px
    size ← decimal sz fill.sz
    closed_pnl ← decimal pnl fill.closed_pnl
    fee ← decimal fees fill.fee
    ok (record {
      hash = fill.hash;
      oid = fill.oid;
      time_ms = fill.time;
      coin = fill.coin;
      side = fill.side;
      direction = fill.dir;
      crossed = fill.crossed;
      price = price;
      size = size;
      closed_pnl_usd = closed_pnl;
      fee_usd = fee;
    })

  abbrev funding_record :
      String → String → String → String → UserFunding → Read D (MainnetFundingRecord D)
  funding_record hash usdc szi rate entry = do
    amount ← decimal usdc entry.usdc
    signed_size ← decimal szi entry.szi
    funding_rate ← decimal rate entry.funding_rate
    ok (record {
      hash = hash;
      time_ms = entry.time;
      coin = entry.coin;
      usdc = amount;
      signed_size = signed_size;
      funding_rate = funding_rate;
    })

  unfoldable pub ws_fill_record : TradeInfo → Read D (MainnetFillRecord D)
  ws_fill_record = fill_record "wsFill.px" "wsFill.sz" "wsFill.closedPnl" "wsFill.fee"

  unfoldable pub ws_funding_record : UserFunding → Read D (MainnetFundingRecord D)
  ws_funding_record = funding_record "" "wsFunding.usdc" "wsFunding.szi" "wsFunding.fundingRate"

  unfoldable pub ws_order_update_record : OrderUpdate → Read D (MainnetOrderUpdateRecord D)
  ws_order_update_record entry = do
    limit_price ← decimal "wsOrder.limitPx" entry.limit_px
    size ← decimal "wsOrder.sz" entry.sz
    original_size ← decimal "wsOrder.origSz" entry.orig_sz
    ok (record {
      oid = entry.oid;
      status = entry.status;
      status_timestamp_ms = entry.status_timestamp;
      coin = entry.coin;
      side = entry.side;
      limit_price = limit_price;
      size = size;
      original_size = original_size;
      cloid = entry.cloid;
    })

  -- What a client that was made answers: the address is parsed first, then both lists are asked for.
  unfoldable pub fetch_history :
      Result String (Unit {0})
      → Bool
      → Result String (List TradeInfo)
      → Result String (List UserFunding)
      → Read D (MainnetHistoryBatch D)
  fetch_history client address user_fills user_funding_history = do
    from_sdk client
    parsed_address address
    fills ← from_sdk user_fills
    funding ← from_sdk user_funding_history
    records ← collect (fill_record "fill.px" "fill.sz" "fill.closedPnl" "fill.fee") fills
    entries ←
        collect
          (λ (e : UserFunding).
            funding_record e.hash "funding.usdc" "funding.szi" "funding.fundingRate" e)
          funding
    ok (record { fills = records; funding = entries })
