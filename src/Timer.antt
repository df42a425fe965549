-- ===== src/Timer.antt =====
-- `CTimer` of netfram/Timer.cpp over the red-black tree of netfram/RBTree.h: the timeouts in
-- milliseconds. The locks, and the texts of the time that `Update` formats, are left out.
pub mod Earliest
pub mod Alone
use network_etc.Base.{
  ℕ, zero, suc, ◌+◌, ◌-◌, ◌%◌, ◌^◌, ◌≡◌, refl, Bool, true, false, not, ◌&&◌, ◌||◌, Option, none,
  some, List, [], ◌∷◌, ◌++◌, ltb, leb, ◌==◌, if◌then◌else◌, ◌>>=◌, u32, u64,
}
use network_etc.RbTree.{Tree, update, is_empty}
use network_etc.RbTree.Inserting
use network_etc.RbTree.Deleting
use network_etc.RbTree.Iterator.{seek_to_first, valid}

-- `now` is `moTime.Msec()`, `timer_on` is `TimerOn` of each event, whose address is that of its
-- node, and `posted` lists the events that `PostTimeout` handed over, the last one first.
pub record Timer : Type 0 where
  pub now : ℕ
  pub holder : Tree
  pub timer_on : ℕ → Bool
  pub posted : List ℕ

-- The low 32 bits of `a - b`, which an `int` takes.
abbrev pub difference : ℕ → ℕ → ℕ
difference a b = (a + u64 - b) % u64 % u32

-- -1 as uint32_t: no limit to the waiting.
abbrev pub infinite : ℕ
infinite = u32 - 1

unfoldable pub empty : Timer → Bool
empty tm = is_empty tm.holder

-- `timer > 0 ? timer : -1`
abbrev pub wait_for : ℕ → ℕ
wait_for d = if ltb 0 d && ltb d (2 ^ 31) then d else infinite

-- `Find`: how long the poll may wait.
pub find : ℕ → Timer → Option ℕ
find fuel tm =
    if is_empty tm.holder
    then some infinite
    else (seek_to_first fuel tm.holder >>= λ first.
        if valid first
        then some (wait_for (difference (tm.holder.key first) tm.now))
        else some infinite)

-- `Delete`, with its assertion.
unfoldable pub delete : ℕ → Timer → ℕ → Option Timer
delete fuel tm event =
    if is_empty tm.holder
    then none
    else (Deleting.delete fuel tm.holder event >>= λ holder.
        some (record tm { holder = holder; timer_on = update tm.timer_on event false }))

post : Timer → ℕ → Timer
post tm event = record tm { posted = event ∷ tm.posted }

-- `Expire`: the event is posted before it is deleted.
pub expire : ℕ → ℕ → Timer → Option Timer
unfolding post
expire zero inner tm = none
expire (suc fuel) inner tm =
    let again = λ (tm' : Timer). expire fuel inner tm' in
    if is_empty tm.holder
    then some tm
    else (seek_to_first inner tm.holder >>= λ first.
        if ltb (difference tm.now (tm.holder.key first)) (2 ^ 31)
        then (delete inner (post tm first) first >>= again)
        else some tm)

-- The event with its new key goes into the tree.
schedule : ℕ → Timer → ℕ → ℕ → Option Timer
schedule fuel tm event key =
    let holder = record tm.holder { key = update tm.holder.key event key } in
    Inserting.insert fuel holder event >>= λ holder'.
    some (record tm { holder = holder'; timer_on = update tm.timer_on event true })

-- `Add(CIoEvent*, uint64_t)`. `abs(liDiff) < 1` holds for 0, and for the least `int`, whose `abs` is
-- itself on the machines that the code is built for.
unfoldable pub add : ℕ → Timer → ℕ → ℕ → Option Timer
unfolding schedule
add fuel tm event time =
    let key = (tm.now + time) % u64 in
    let moved = difference key (tm.holder.key event) in
    if time == 0 || ltb time 1
    then some tm
    else if tm.timer_on event
    then (if moved == 0 || moved == 2 ^ 31
        then some tm
        else (delete fuel tm event >>= λ tm'. schedule fuel tm' event key))
    else schedule fuel tm event key
