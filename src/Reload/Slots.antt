-- ===== src/Reload/Slots.antt =====
-- src/reload.rs: `InFlightFetches` under concurrent `try_acquire`s, by atomic operations.
use nyasniproxy.Base.{
  ℕ, zero, suc, ◌+◌, ◌-◌, ◌≤◌, ◌<◌, List, [], ◌∷◌, ◌≡◌, refl, inl, inr, arith, leb, ◌==◌,
  if◌then◌else◌, All, Bool-cases,
}

-- Where a thread is: in front of the load, between a load of a value below the maximum and its
-- `compare_exchange`, holding a guard, turned away, or past the drop of its guard.
pub data Thread : Type 0 where
  loading : Thread
  loaded : ℕ → Thread
  holding refused finished : Thread

-- The next atomic operation of a thread, on the counter.
unfoldable pub advance : ℕ → ℕ → Thread → Thread × ℕ
advance max current loading =
    if leb max current then (refused, current) else (loaded current, current)
advance max current (loaded cur) = if cur == current then (holding, cur + 1) else (loading, current)
advance max current holding = (finished, current - 1)
advance max current refused = (refused, current)
advance max current finished = (finished, current)

-- The scheduler picks the `i`-th thread.
unfoldable pub step : ℕ → ℕ → List Thread × ℕ → List Thread × ℕ
step max i ([], current) = ([], current)
step max zero (t ∷ ts, current) = ((advance max current t).0 ∷ ts, (advance max current t).1)
step max (suc i) (t ∷ ts, current) =
    let (ts', current') = step max i (ts, current) in (t ∷ ts', current')

unfoldable pub run : ℕ → List ℕ → List Thread × ℕ → List Thread × ℕ
unfolding step
run max [] s = s
run max (i ∷ schedule) s = run max schedule (step max i s)

abbrev pub holds : Thread → ℕ
holds holding = 1
holds _ = 0

abbrev pub holders : List Thread → ℕ
holders [] = 0
holders (t ∷ ts) = holds t + holders ts

abbrev pub Below : ℕ → Thread → Type 0
Below max (loaded cur) = cur < max
Below max _ = Unit

-- What one operation of a thread does to the counter and to its own guard.
pub record Moves (max : ℕ) (t : Thread) (current : ℕ) (t' : Thread) (current' : ℕ) : Type 0 where
  pub balanced : holds t' + current ≡ holds t + current'
  pub bounded : current' ≤ max
  pub below : Below max t'

advance-Moves :
    (max current : ℕ) (t : Thread)
    → Below max t
    → holds t ≤ current
    → current ≤ max
    → Moves max t current (advance max current t).0 (advance max current t).1
unfolding advance
advance-Moves max current loading b h k = elim (Bool-cases (leb max current)) [
  | inl full ↦ rw full (record { balanced = refl; bounded = k; below = tt })
  | inr room ↦ rw room (record { balanced = refl; bounded = k; below = ground (arith, room) })
]
advance-Moves max current (loaded cur) b h k = elim (Bool-cases (cur == current)) [
  | inl same ↦
      rw same (record { balanced = ground (arith, same); bounded = omega (arith, b); below = tt })
  | inr other ↦ rw other (record { balanced = refl; bounded = k; below = tt })
]
advance-Moves max current holding b h k = record {
  balanced = omega (arith, h);
  bounded = omega (arith, k);
  below = tt;
}
advance-Moves max current refused b h k = record { balanced = refl; bounded = k; below = tt }
advance-Moves max current finished b h k = record { balanced = refl; bounded = k; below = tt }

-- The counter counts the guards, with `rest` of them held elsewhere, and is within the maximum.
pub record Counts (max rest : ℕ) (ts : List Thread) (current : ℕ) : Type 0 where
  pub counted : holders ts + rest ≡ current
  pub bounded : current ≤ max
  pub below : All (Below max) ts

step-Counts :
    (max i : ℕ) (ts : List Thread) (rest current : ℕ)
    → Counts max rest ts current
    → Counts max rest (step max i (ts, current)).0 (step max i (ts, current)).1
unfolding step
step-Counts max i [] rest current c = c
step-Counts max zero (t ∷ ts) rest current c =
    let m = advance-Moves max current t c.below.0 (omega (arith, c.counted)) c.bounded in
    record {
      counted = omega (arith, m.balanced, c.counted);
      bounded = m.bounded;
      below = (m.below, c.below.1);
    }
step-Counts max (suc i) (t ∷ ts) rest current c =
    let inner =
      step-Counts max i ts (holds t + rest) current
        (record { counted = omega (arith, c.counted); bounded = c.bounded; below = c.below.1 }) in
    record {
      counted = omega (arith, inner.counted);
      bounded = inner.bounded;
      below = (c.below.0, inner.below);
    }

-- Under any interleaving of the atomic operations of any number of threads, the counter is the
-- number of guards that are held, and never above the maximum.
pub run-Counts :
    (max : ℕ) (schedule : List ℕ) (ts : List Thread) (current : ℕ)
    → Counts max 0 ts current
    → Counts max 0 (run max schedule (ts, current)).0 (run max schedule (ts, current)).1
unfolding run
run-Counts max [] ts current c = c
run-Counts max (i ∷ schedule) ts current c =
    run-Counts max schedule _ _ (step-Counts max i ts 0 current c)
