-- ===== src/Store/Events.antt =====
-- src/store.rs: the event log, whose cursors count the events, and what `events_after` reads of it.
use hyperliquid_live_executo.Base.{
  ℕ, zero, suc, ◌+◌, ◌≤◌, ◌≡◌, refl, List, [], ◌∷◌, ◌++◌, length, take, drop, select, arith,
}
use hyperliquid_live_executo.Base.Int.{pos, ltb_ℤ}
use hyperliquid_live_executo.Store.State.{Store, ExecutionEvent}
use hyperliquid_live_executo.Store.Intents.{events_after}
use Prim.Native.Nat.{min}

module _ {D : Type 0} where
  -- The cursors count on from `k`.
  abbrev pub NumberedFrom : ℕ → List (ExecutionEvent D) → Type 0
  NumberedFrom k [] = Unit
  NumberedFrom k (e ∷ es) = (e.cursor ≡ suc k) × NumberedFrom (suc k) es

  pub take-NumberedFrom :
      (k n : ℕ) (es : List (ExecutionEvent D)) → NumberedFrom k es → NumberedFrom k (take n es)
  take-NumberedFrom k zero es h = tt
  take-NumberedFrom k (suc n) [] h = tt
  take-NumberedFrom k (suc n) (e ∷ es) h = (h.0, take-NumberedFrom (suc k) n es h.1)

  drop-NumberedFrom :
      (k n : ℕ) (es : List (ExecutionEvent D))
      → NumberedFrom k es
      → NumberedFrom (k + n) (drop n es)
  drop-NumberedFrom k zero es h = ground arith
  drop-NumberedFrom k (suc n) [] h = tt
  drop-NumberedFrom k (suc n) (e ∷ es) h = ground (arith, drop-NumberedFrom (suc k) n es h.1)

  -- The events that are left after the first ones.
  pub drop-Numbered :
      (n : ℕ) (es : List (ExecutionEvent D)) → NumberedFrom 0 es → NumberedFrom n (drop n es)
  drop-Numbered n es h = let e : 0 + n ≡ n = omega arith in rw e at (drop-NumberedFrom 0 n es h)

  pub append-NumberedFrom :
      (k : ℕ) (es : List (ExecutionEvent D)) (e : ExecutionEvent D)
      → NumberedFrom k es
      → e.cursor ≡ k + length es + 1
      → NumberedFrom k (es ++ e ∷ [])
  append-NumberedFrom k [] e h c = ground arith
  append-NumberedFrom k (x ∷ es) e h c = (h.0, append-NumberedFrom (suc k) es e h.1 (omega arith))

  -- All events above a cursor that comes before them.
  select-all :
      (a k : ℕ) (es : List (ExecutionEvent D))
      → a ≤ k
      → NumberedFrom k es
      → select (λ (e : ExecutionEvent D). ltb_ℤ (pos a) (pos e.cursor)) es ≡ es
  select-all a k [] le h = refl
  select-all a k (e ∷ es) le h = ground (arith, select-all a (suc k) es (omega arith) h.1)

  select-drop :
      (k n : ℕ) (es : List (ExecutionEvent D))
      → NumberedFrom k es
      → select (λ (e : ExecutionEvent D). ltb_ℤ (pos (k + n)) (pos e.cursor)) es ≡ drop n es
  select-drop k zero es h = select-all (k + 0) k es (omega arith) h
  select-drop k (suc n) [] h = refl
  select-drop k (suc n) (e ∷ es) h = ground (arith, select-drop (suc k) n es h.1)

  -- The events after a cursor are those that it has not counted.
  pub events_after_lem :
      (after limit : ℕ) (s : Store D)
      → NumberedFrom 0 s.events
      → events_after (pos after) limit s ≡ take (min limit 500) (drop after s.events)
  unfolding events_after
  events_after_lem after limit s h = ground (arith, select-drop 0 after s.events h)
