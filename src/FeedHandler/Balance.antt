-- ===== src/FeedHandler/Balance.antt =====
-- The arms of the switch in apps/feed_handler/main.cc against the resting shares of the book.
use nasdaq_itch_trading_syst.Base.{
  ℕ, ◌+◌, ◌-◌, ◌*◌, ◌^◌, ◌<◌, ◌≤◌, ◌≡◌, ◌≢◌, refl, Option, some, length, u64, sub_u32, arith,
}
use nasdaq_itch_trading_syst.Itch.Messages.{AddOrder, OrderDelete, OrderReplace}
use nasdaq_itch_trading_syst.Book.OrderBook.{
  OrderBook, ApplyResult, applied, unknown_ref, duplicate_ref, clamped_reduce,
}
use nasdaq_itch_trading_syst.Book.OrderBook.Spec.{view}
use nasdaq_itch_trading_syst.Book.OrderBook.Invariant.{IsBook}
use nasdaq_itch_trading_syst.Book.OrderBook.Removing.{remove_correct}
use nasdaq_itch_trading_syst.Book.OrderBook.Reducing.{reduce_correct}
use nasdaq_itch_trading_syst.Book.OrderBook.Adding.{add_correct}
use nasdaq_itch_trading_syst.Book.OrderBook.Replacing.{replace_correct}
use nasdaq_itch_trading_syst.Book.OrderBook.Reachable.{run-IsBook}
use nasdaq_itch_trading_syst.Book.OrderBook.Moves.{gained, quantity, shares_of_lem, add-Moves}
use nasdaq_itch_trading_syst.Book.OrderBook.Moves.Reduce.{reduce-Moves}
use nasdaq_itch_trading_syst.Book.OrderBook.Moves.Remove.{remove-Moves}
use nasdaq_itch_trading_syst.Book.OrderBook.Moves.Replace.{replace-Moves}
use nasdaq_itch_trading_syst.FeedHandler.{
  Audit, tally, expected_resting, to_side, executed, cancelled, deleted, count_added,
  count_replaced, on_add, on_reduce, on_delete, on_replace,
}

-- The four totals are of 64 bits.
pub record IsAudit (a : Audit) : Type 0 where
  pub added : a.shares_added < 2 ^ 64
  pub executed : a.shares_executed < 2 ^ 64
  pub cancelled : a.shares_cancelled < 2 ^ 64
  pub deleted : a.shares_deleted < 2 ^ 64

-- What was added rests, or has left, on 64 bits.
abbrev pub Balanced : ℕ → Audit → Type 0
Balanced resting a =
    u64 (resting + a.shares_executed + a.shares_cancelled + a.shares_deleted) ≡ u64 a.shares_added

pub Balanced-expected_resting :
    (resting : ℕ) (a : Audit) → IsAudit a → Balanced resting a → u64 resting ≡ expected_resting a
unfolding expected_resting
Balanced-expected_resting resting a v e = omega (arith, v.added, v.executed, v.cancelled, v.deleted)

-- An arm has made `b'` and `a'` of `b` and `a`.
pub record Conserves (b b' : OrderBook) (a a' : Audit) : Type 0 where
  pub valid : IsBook b'
  pub audit : IsAudit a'
  pub balance :
      (rest : ℕ) → Balanced (rest + b.order_shares) a → Balanced (rest + b'.order_shares) a'
  pub size : b'.orders.size ≤ b.orders.size + 1
  pub width :
      (n : ℕ) → length b.orders.slots ≤ n → 256 + 4 * b.orders.size ≤ n → length b'.orders.slots ≤ n

abbrev pub Arm : OrderBook → Audit → Option (OrderBook × Audit) → Type 0
Arm b a run = (b' : OrderBook) × (a' : Audit) × (run ≡ some (b', a')) × Conserves b b' a a'

tally-IsAudit : (a : Audit) (r : ApplyResult) → IsAudit a → IsAudit (tally a r)
unfolding tally
tally-IsAudit a applied v = ground arith
tally-IsAudit a unknown_ref v = ground arith
tally-IsAudit a duplicate_ref v = ground arith
tally-IsAudit a clamped_reduce v = ground arith

tally-Balanced : (n : ℕ) (a : Audit) (r : ApplyResult) → Balanced n a → Balanced n (tally a r)
unfolding tally
tally-Balanced n a applied e = e
tally-Balanced n a unknown_ref e = e
tally-Balanced n a duplicate_ref e = e
tally-Balanced n a clamped_reduce e = e

count_added_lem :
    (a : Audit) (r : ApplyResult) (n old new : ℕ)
    → IsAudit a
    → u64 (new + 0) ≡ u64 (old + gained r n)
    → IsAudit (count_added a r n)
      × ((rest : ℕ) → Balanced (rest + old) a → Balanced (rest + new) (count_added a r n))
unfolding count_added
count_added_lem a applied n old new v e = (
  record {
    added = omega arith;
    executed = v.executed;
    cancelled = v.cancelled;
    deleted = v.deleted;
  },
  λ rest h. omega arith,
)
count_added_lem a unknown_ref n old new v e = (v, λ rest h. omega arith)
count_added_lem a duplicate_ref n old new v e = (v, λ rest h. omega arith)
count_added_lem a clamped_reduce n old new v e = (v, λ rest h. omega arith)

count_replaced_lem :
    (a : Audit) (r : ApplyResult) (killed n old new : ℕ)
    → IsAudit a
    → u64 (new + gained r killed) ≡ u64 (old + gained r n)
    → IsAudit (count_replaced a r killed n)
      × ((rest : ℕ) → Balanced (rest + old) a → Balanced (rest + new) (count_replaced a r killed n))
unfolding count_replaced count_added
count_replaced_lem a applied killed n old new v e = (
  record {
    added = omega arith;
    executed = v.executed;
    cancelled = v.cancelled;
    deleted = omega arith;
  },
  λ rest h. omega arith,
)
count_replaced_lem a unknown_ref killed n old new v e = (v, λ rest h. omega arith)
count_replaced_lem a duplicate_ref killed n old new v e = (v, λ rest h. omega arith)
count_replaced_lem a clamped_reduce killed n old new v e = (v, λ rest h. omega arith)

pub on_add-Arm :
    (m : AddOrder) (b : OrderBook) (a : Audit)
    → IsBook b
    → IsAudit a
    → m.shares < 2 ^ 31
    → length b.orders.slots ≤ 2 ^ 61
    → Arm b a (on_add m b a)
unfolding on_add
on_add-Arm m b a v w small room =
    let (b', r, run, moves) = add-Moves b m.order_ref (to_side m.side) m.shares m.price v room in
    let (w', balance) =
      count_added_lem (tally a r) r m.shares b.order_shares b'.order_shares (tally-IsAudit a r w)
        moves.shares in
    (
      b',
      count_added (tally a r) r m.shares,
      rw run refl,
      record {
        valid =
            run-IsBook _ _ b' r
              (add_correct b m.order_ref (to_side m.side) m.shares m.price v small room) run;
        audit = w';
        balance = λ rest h. balance rest (tally-Balanced (rest + b.order_shares) a r h);
        size = moves.size;
        width = moves.width;
      },
    )

-- A total that counts what has left a book.
pub record Counts (count : Audit → ℕ → Audit) : Type 0 where
  pub keeps : (a : Audit) (n : ℕ) → IsAudit a → IsAudit (count a n)
  pub balances :
      (a : Audit) (n old new : ℕ)
      → u64 (new + n) ≡ u64 old
      → (rest : ℕ) → Balanced (rest + old) a
      → Balanced (rest + new) (count a n)

pub executed-Counts : Counts executed
executed-Counts = record {
  keeps = λ a n v. ground arith;
  balances = λ a n old new e rest h. omega arith;
}

pub cancelled-Counts : Counts cancelled
cancelled-Counts = record {
  keeps = λ a n v. ground arith;
  balances = λ a n old new e rest h. omega arith;
}

pub deleted-Counts : Counts deleted
deleted-Counts = record {
  keeps = λ a n v. ground arith;
  balances = λ a n old new e rest h. omega arith;
}

pub on_reduce-Arm :
    (count : Audit → ℕ → Audit) (ref shares : ℕ) (b : OrderBook) (a : Audit)
    → Counts count
    → IsBook b
    → IsAudit a
    → ref ≢ 0
    → Arm b a (on_reduce count ref shares b a)
unfolding on_reduce
on_reduce-Arm count ref shares b a c v w ne =
    let (b', r, run, less, small, moves) = reduce-Moves b ref shares v ne in
    let v' = run-IsBook _ _ b' r (reduce_correct b ref shares v ne) run in
    let before = quantity (view b ref) in
    let left = quantity (view b' ref) in
    let gone : sub_u32 before left ≡ before - left = omega arith in
    (
      b',
      count (tally a r) (sub_u32 before left),
      rw (shares_of_lem b ref v ne, run, shares_of_lem b' ref v' ne) refl,
      record {
        valid = v';
        audit = c.keeps (tally a r) _ (tally-IsAudit a r w);
        balance = λ rest h.
            c.balances (tally a r) (sub_u32 before left) b.order_shares b'.order_shares
              (omega (arith, gone, moves.shares)) rest
              (tally-Balanced (rest + b.order_shares) a r h);
        size = moves.size;
        width = moves.width;
      },
    )

pub on_delete-Arm :
    (m : OrderDelete) (b : OrderBook) (a : Audit)
    → IsBook b
    → IsAudit a
    → m.order_ref ≢ 0
    → Arm b a (on_delete m b a)
unfolding on_delete
on_delete-Arm m b a v w ne =
    let ref = m.order_ref in
    let (b', r, run, small, moves) = remove-Moves b ref v ne in
    let killed = quantity (view b ref) in
    (
      b',
      tally (deleted a killed) r,
      rw (shares_of_lem b ref v ne, run) refl,
      record {
        valid = run-IsBook _ _ b' r (remove_correct b ref v ne) run;
        audit = tally-IsAudit (deleted a killed) r (deleted-Counts.keeps a killed w);
        balance = λ rest h. tally-Balanced (rest + b'.order_shares) (deleted a killed) r (
            deleted-Counts.balances a killed b.order_shares b'.order_shares
              (omega (arith, moves.shares)) rest h);
        size = moves.size;
        width = moves.width;
      },
    )

pub on_replace-Arm :
    (m : OrderReplace) (b : OrderBook) (a : Audit)
    → IsBook b
    → IsAudit a
    → m.original_order_ref ≢ 0
    → m.new_order_ref ≢ 0
    → m.shares < 2 ^ 31
    → length b.orders.slots ≤ 2 ^ 61
    → Arm b a (on_replace m b a)
unfolding on_replace
on_replace-Arm m b a v w ne ne' small room =
    let ref = m.original_order_ref in
    let (b', r, run, some_left, moves) =
      replace-Moves b ref m.new_order_ref m.shares m.price v ne ne' small room in
    let killed = quantity (view b ref) in
    let (w', balance) =
      count_replaced_lem (tally a r) r killed m.shares b.order_shares b'.order_shares
        (tally-IsAudit a r w) moves.shares in
    (
      b',
      count_replaced (tally a r) r killed m.shares,
      rw (shares_of_lem b ref v ne, run) refl,
      record {
        valid =
            run-IsBook _ _ b' r
              (replace_correct b ref m.new_order_ref m.shares m.price v ne ne' small room) run;
        audit = w';
        balance = λ rest h. balance rest (tally-Balanced (rest + b.order_shares) a r h);
        size = moves.size;
        width = moves.width;
      },
    )
