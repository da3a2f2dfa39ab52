-- ===== src/Domain/Confirmation.antt =====
-- src/domain/manual_confirmation.rs: what an operator has to confirm.
use hyperliquid_live_executo.Base.{String, Option}
use hyperliquid_live_executo.Base.Time.{Timestamp}

pub record ManualConfirmation : Type 0 where
  pub digest : String
  pub expires_at : Timestamp
  pub confirmed_at : Option Timestamp
  pub confirmed_by : Option String
