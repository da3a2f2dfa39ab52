-- ===== src/Api/Reads/Pages.antt =====
-- src/api.rs: a client that follows the cursors of `get_events` reads the whole event log.
use hyperliquid_live_executo.Base.{
  ℕ, zero, suc, ◌+◌, ◌≤◌, ◌≡◌, List, [], ◌∷◌, ◌++◌, length, nil_of_length, rest_shorter, take, drop,
  drop-add, take-append-drop, arith,
}
use hyperliquid_live_executo.Base.Int.{ℤ, pos}
use hyperliquid_live_executo.Store.State.{Store, ExecutionEvent}
use hyperliquid_live_executo.Store.Events.{
  NumberedFrom, take-NumberedFrom, drop-Numbered, events_after_lem,
}
use hyperliquid_live_executo.Api.Reads.{EventPage, get_events, last_cursor, at_least_one}
use hyperliquid_live_executo.Decimal.{DecimalOps}
use hyperliquid_live_executo.Store.Reach.{Reachable}
use hyperliquid_live_executo.Store.Reach.Numbered.{Reachable-IsNumbered}
use Prim.Native.Nat.{min}

-- The number of events that a page may hold.
abbrev page_size : ℕ → ℕ
page_size limit = min (at_least_one limit) 500

page_size_pos : (limit : ℕ) → 1 ≤ page_size limit
page_size_pos limit = ground arith

module _ {D : Type 0} where
  -- The events of the next pages, each asked for after the last cursor of the one before.
  pub pages : ℕ → ℕ → ℤ → Store D → List (ExecutionEvent D)
  pages zero limit after s = []
  pages (suc n) limit after s =
      let page : EventPage D = get_events after limit s in
      page.events ++ pages n limit page.next_cursor s

  last_cursor_lem :
      (a : ℕ) (es : List (ExecutionEvent D))
      → NumberedFrom a es
      → last_cursor (pos a) es ≡ pos (a + length es)
  last_cursor_lem a [] h = ground arith
  last_cursor_lem a (e ∷ es) h = ground (arith, last_cursor_lem (suc a) es h.1)

  page_lem :
      (a limit : ℕ) (s : Store D)
      → NumberedFrom 0 s.events
      → get_events (pos a) limit s ≡ (record {
        events = take (page_size limit) (drop a s.events);
        next_cursor = pos (a + length (take (page_size limit) (drop a s.events)));
      })
  unfolding get_events
  page_lem a limit s h = ground (
    arith,
    events_after_lem a (at_least_one limit) s h,
    last_cursor_lem a (take (page_size limit) (drop a s.events))
        (take-NumberedFrom a (page_size limit) (drop a s.events) (drop-Numbered a s.events h)),
  )

  pages_from :
      (n limit a : ℕ) (s : Store D)
      → NumberedFrom 0 s.events
      → length (drop a s.events) ≤ n
      → pages n limit (pos a) s ≡ drop a s.events
  unfolding pages
  pages_from zero limit a s h short = nil_of_length (drop a s.events) short
  pages_from (suc n) limit a s h short =
      let es = drop a s.events in
      let read = take (page_size limit) es in
      let later = drop-add a (length read) s.events in
      let rest =
        pages_from n limit (a + length read) s h
          (rw later (rest_shorter (page_size limit) n es (page_size_pos limit) short)) in
      rw (page_lem a limit s h, rest, later) (take-append-drop (page_size limit) es)

  -- In a store that the methods lead to, a client that starts at the cursor zero and follows the
  -- cursor of each page reads exactly the events of the log, each once and in order, with any limit,
  -- in at most as many pages as there are events.
  pub pages_enumerate :
      (ops : DecimalOps D) (sha256 : List ℕ → List ℕ) (n limit : ℕ) (s : Store D)
      → Reachable ops sha256 s
      → length s.events ≤ n
      → pages n limit (pos 0) s ≡ s.events
  pages_enumerate ops sha256 n limit s r short =
      pages_from n limit 0 s (Reachable-IsNumbered ops sha256 r) short
