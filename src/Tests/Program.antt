-- ===== src/Tests/Program.antt =====
-- The program as a whole: an intent is submitted and confirmed, and the worker runs.
use hyperliquid_live_executo.Base.{some}
use hyperliquid_live_executo.Base.Int.{ℤ}
use hyperliquid_live_executo.Base.Time.{seconds}
use hyperliquid_live_executo.Decimal.Fixed.{fixed}
use hyperliquid_live_executo.Api.Requests.{handle, create, confirm}
use hyperliquid_live_executo.Program.{Runs, start, next, request, pass, program-IsConsistent}
use hyperliquid_live_executo.Store.Consistency.{IsConsistent}
use hyperliquid_live_executo.Store.Reach.{empty}
use hyperliquid_live_executo.Store.State.{Store}
use hyperliquid_live_executo.Worker.{run_once}
use hyperliquid_live_executo.Tests.Api.{state}
use hyperliquid_live_executo.Tests.Data.{order, sha256}
use hyperliquid_live_executo.Tests.Worker.{clock, unprotected}

abbrev created : Store ℤ
created = (handle state (λ _. seconds 20) (create (some "key-1") order) (empty 0)).1

abbrev approved : Store ℤ
approved = (handle state (λ _. seconds 25) (confirm 7 "digest-1" "operator") created).1

abbrev passed : Store ℤ
passed = (run_once fixed sha256 unprotected clock "0xabc" approved).1

program_runs : Runs state passed
program_runs =
    next
      (next (next (start 0) (request (λ _. seconds 20) (create (some "key-1") order) (empty 0)))
        (request (λ _. seconds 25) (confirm 7 "digest-1" "operator") created))
      (pass unprotected clock "0xabc" approved)

program-IsConsistent_example : IsConsistent passed
program-IsConsistent_example = program-IsConsistent state program_runs
