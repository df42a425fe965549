-- ===== src/Timer/Alone.antt =====
-- A timer of netfram/Timer.cpp that is set where no other is: from `Add` over `Find` to `Expire`.
use network_etc.Base.{
  ℕ, suc, ◌+◌, ◌%◌, ◌^◌, ◌≤◌, ◌<◌, ◌≡◌, ◌≢◌, refl, true, false, some, ◌∷◌, Option, List, Bool,
  ◌>>=◌, u64, ltb, arith,
}
use network_etc.RbTree.{
  sentinel, null, is_empty, update, set_left, set_right, set_parent, set_root, paint,
}
use network_etc.RbTree.Inserting
use network_etc.RbTree.Deleting
use network_etc.RbTree.Deleting.{leftmost, choose, clear}
use network_etc.RbTree.Iterator.{seek_to_first, valid}
use network_etc.Timer.{
  Timer, empty, find, wait_for, difference, delete, post, expire, schedule, add,
}

-- `Add` of an event that is not set, to a timer with none.
pub record IsFirst (tm : Timer) (n time : ℕ) : Type 0 where
  pub none_set : tm.holder.root ≡ sentinel
  pub not_null : n ≢ null
  pub not_sentinel : n ≢ sentinel
  pub positive : 0 < time
  pub near : time < 2 ^ 31
  pub in_range : tm.now + time < u64
  pub off : tm.timer_on n ≡ false

-- What `Add` leaves.
armed : Timer → ℕ → ℕ → Timer
armed tm n time =
    let t = record tm.holder { key = update tm.holder.key n (tm.now + time) } in
    record tm {
      holder =
          set_root
            (paint (set_right (set_left (set_parent t n null) n sentinel) n sentinel) n false) n;
      timer_on = update tm.timer_on n true;
    }

module _ (tm : Timer) (n time : ℕ) (f : IsFirst tm n time) where
  schedule-armed : (fuel : ℕ) → schedule fuel tm n (tm.now + time) ≡ some (armed tm n time)
  unfolding schedule armed Inserting.insert
  schedule-armed fuel = ground (arith, f.none_set)

  add-armed : (fuel : ℕ) → add fuel tm n time ≡ some (armed tm n time)
  unfolding add
  add-armed fuel =
      let key : (tm.now + time) % u64 ≡ tm.now + time = omega (arith, f.in_range) in
      rw key (rw f.off (ground (arith, schedule-armed fuel, f.positive)))

  first-armed : (fuel : ℕ) → seek_to_first (suc fuel) (armed tm n time).holder ≡ some n
  unfolding seek_to_first leftmost armed
  first-armed fuel = ground arith

  not_empty : is_empty (armed tm n time).holder ≡ false
  unfolding is_empty armed
  not_empty = ground (arith, f.not_sentinel)

  key-armed : (armed tm n time).holder.key n ≡ tm.now + time
  unfolding armed
  key-armed = ground arith

  now-armed : (armed tm n time).now ≡ tm.now
  unfolding armed
  now-armed = refl

  difference-armed : difference (tm.now + time) tm.now ≡ time
  difference-armed = omega (arith, f.near, f.in_range)

  valid-armed : valid n ≡ true
  unfolding valid
  valid-armed = ground (arith, f.not_sentinel)

  wait-armed : wait_for time ≡ time
  wait-armed = ground (arith, f.positive, f.near)

  find-armed : (fuel : ℕ) → find (suc fuel) (armed tm n time) ≡ some time
  unfolding find
  find-armed fuel =
      rw (not_empty, first-armed fuel, valid-armed, key-armed, now-armed, difference-armed)
        (rw (wait-armed) refl)

  -- What one removal leaves of a tree with the one node `n`.
  removed-armed :
      (fuel : ℕ)
      → Deleting.delete fuel (armed tm n time).holder n
        ≡ some (clear (paint (set_root (armed tm n time).holder sentinel) sentinel false) n)
  unfolding Deleting.delete choose armed
  removed-armed fuel = ground arith

-- Whether no event is set, the events posted, and whether `n` is armed.
abbrev pub seen : Timer → ℕ → Bool × List ℕ × Bool
seen tm n = (empty tm, tm.posted, tm.timer_on n)

-- The clock, read later.
abbrev at : Timer → ℕ → Timer
at tm later = record tm { now = later }

-- The timer that fired.
abbrev fired : Timer → ℕ → Timer
fired tm n = record tm {
  holder = clear (paint (set_root tm.holder sentinel) sentinel false) n;
  timer_on = update tm.timer_on n false;
  posted = n ∷ tm.posted;
}

module _ (tm : Timer) (n time later : ℕ) (f : IsFirst tm n time) where
  late :
      tm.now + time ≤ later
      → later < tm.now + time + 2 ^ 31
      → later < u64
      → ltb (difference later (tm.now + time)) (2 ^ 31) ≡ true
  late due soon fits = ground arith

  delete-armed :
      (fuel : ℕ)
      → delete fuel (post (at (armed tm n time) later) n) n
        ≡ some (fired (at (armed tm n time) later) n)
  unfolding delete post
  delete-armed fuel = rw (not_empty tm n time f, removed-armed tm n time f fuel) refl

  expire-fired :
      (fuel inner : ℕ)
      → expire (suc fuel) inner (fired (at (armed tm n time) later) n)
        ≡ some (fired (at (armed tm n time) later) n)
  unfolding expire is_empty
  expire-fired fuel inner = ground arith

  expire-armed :
      tm.now + time ≤ later
      → later < tm.now + time + 2 ^ 31
      → later < u64
      → (fuel inner : ℕ)
      → expire (suc (suc fuel)) (suc inner) (at (armed tm n time) later)
        ≡ some (fired (at (armed tm n time) later) n)
  unfolding expire
  expire-armed due soon fits fuel inner =
      rw
        (
          not_empty tm n time f,
          first-armed tm n time f inner,
          key-armed tm n time f,
          late due soon fits,
          delete-armed (suc inner),
        )
        (expire-fired fuel (suc inner))

  too_early :
      tm.now ≤ later
      → later < tm.now + time
      → ltb (difference later (tm.now + time)) (2 ^ 31) ≡ false
  too_early after soon = ground (arith, f.near, f.in_range)

  expire-early :
      tm.now ≤ later
      → later < tm.now + time
      → (fuel inner : ℕ)
      → expire (suc fuel) (suc inner) (at (armed tm n time) later)
        ≡ some (at (armed tm n time) later)
  unfolding expire
  expire-early after soon fuel inner =
      rw
        (
          not_empty tm n time f,
          first-armed tm n time f inner,
          key-armed tm n time f,
          too_early after soon,
        )
        refl

  left_as_is : seen (at (armed tm n time) later) n ≡ (false, tm.posted, true)
  unfolding empty armed
  left_as_is = rw (not_empty tm n time f) (ground arith)

  left_fired : seen (fired (at (armed tm n time) later) n) n ≡ (true, n ∷ tm.posted, false)
  unfolding empty is_empty armed
  left_fired = ground arith

-- `Add` of the event at `tm.now`, and `Expire` when the clock is at `later`.
unfoldable pub outcome : ℕ → Timer → ℕ → ℕ → ℕ → Option (Bool × List ℕ × Bool)
outcome fuel tm n time later =
    add fuel tm n time >>= λ set. expire fuel fuel (at set later) >>= λ done. some (seen done n)

-- `Add` of an event that is not set, where no other is, so far ahead of the clock that neither the
-- key nor the difference of 32 bits wraps: `Find` then says to wait that time. `Expire` posts nothing
-- while the clock is before it; from then on, as long as the clock is at most 2^31 - 1 beyond it, it
-- posts the event once and leaves no event set. No bound on the fuel but 2 is needed.
pub add-expire :
    (tm : Timer) (n time early later : ℕ)
    → IsFirst tm n time
    → tm.now ≤ early
    → early < tm.now + time
    → tm.now + time ≤ later
    → later < tm.now + time + 2 ^ 31
    → later < u64
    → (fuel : ℕ)
    → ((add fuel tm n time >>= find (suc fuel)) ≡ some time)
      × (outcome (suc (suc fuel)) tm n time early ≡ some (false, tm.posted, true))
      × (outcome (suc (suc fuel)) tm n time later ≡ some (true, n ∷ tm.posted, false))
unfolding outcome
add-expire tm n time early later f from before due soon fits fuel = (
  rw (add-armed tm n time f fuel) (find-armed tm n time f fuel),
  rw
      (
        add-armed tm n time f (suc (suc fuel)),
        expire-early tm n time early f from before (suc fuel) (suc fuel),
      )
      (rw (left_as_is tm n time early f) refl),
  rw
      (
        add-armed tm n time f (suc (suc fuel)),
        expire-armed tm n time later f due soon fits fuel (suc fuel),
      )
      (rw (left_fired tm n time later f) refl),
)
