-- ===== src/Poll.antt =====
-- kernel-overlay/include/evl/poll_head.h, kernel-overlay/include/evl/poll.h and
-- kernel-overlay/include/asm-generic/evl/poll.h: the heads that pollers watch. Locks are not
-- represented. Watchpoints are addresses.
use spacemit_xenomai.Base.{ℕ, not, Option, none, List, [], if◌then◌else◌}
use spacemit_xenomai.SchedQueue.Mlq.{list_empty}

pub record PollHead : Type 0 where
  pub watchpoints : List ℕ

-- EVL_POLLHEAD_INITIALIZER
unfoldable pub pollhead_initializer : PollHead
pollhead_initializer = record { watchpoints = [] }

unfoldable pub init_poll_head : PollHead → PollHead
init_poll_head head = record head { watchpoints = [] }

-- `signal` stands for `__evl_signal_poll_events`.
unfoldable pub signal_poll_events : {W : Type 0} → (PollHead → ℕ → W → W) → PollHead → ℕ → W → W
signal_poll_events signal head events w =
    if not (list_empty head.watchpoints) then signal head events w else w

abbrev pub poll_nr_connectors : ℕ
poll_nr_connectors = 4

-- `struct evl_poll_connector`, less its link, and `struct oob_poll_wait`, an array of
-- `poll_nr_connectors` of them.
pub record PollConnector : Type 0 where
  pub head : Option ℕ
  pub unwatch : Option ℕ
  pub events_received : ℕ  -- int
  pub index : ℕ  -- int

pub record OobPollWait : Type 0 where
  pub connectors : List PollConnector

pub record OobPollQueue : Type 0 where
  pub head : PollHead

unfoldable pub init_oob_poll_queue : OobPollQueue → OobPollQueue
unfolding init_poll_head
init_oob_poll_queue pwq = record pwq { head = init_poll_head pwq.head }

unfoldable pub poll_signal_oob : {W : Type 0} → (PollHead → ℕ → W → W) → OobPollQueue → ℕ → W → W
unfolding signal_poll_events
poll_signal_oob signal pwq mask w = signal_poll_events signal pwq.head mask w

-- `watch` stands for `evl_poll_watch`; there is no function to call when the watch ends.
unfoldable pub poll_wait_oob :
    {W : Type 0} → (PollHead → OobPollWait → Option ℕ → W → W) → OobPollQueue → OobPollWait → W → W
poll_wait_oob watch pwq wait w = watch pwq.head wait none w

-- `struct evl_poll_watchpoint` of evl/poll.h, less its link; `pollval` is the word of the union.
pub record PollWatchpoint : Type 0 where
  pub fd : ℕ  -- unsigned int
  pub events_polled : ℕ  -- int
  pub pollval : ℕ
  pub wait : OobPollWait
  pub flag : Option ℕ
  pub filp : ℕ

-- `struct evl_poll_node` is a link; `poll_nodes` is the list of the nodes' addresses.
pub record PollNode : Type 0 where
  pub next : ℕ
