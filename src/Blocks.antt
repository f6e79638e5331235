-- ===== src/Blocks.antt =====
-- memnode/blocks.py: the block store of one node.
--
-- The daemon runs one event loop, and no method awaits anything but an uncontended lock or another
-- method of the class, so each call runs whole: a method is a function from the state to the new
-- state and its result. `hash` is Python's hash of a string. The clock reading that a call makes is
-- its argument `now`; the two calls of `random.shuffle` are its argument `shuffles`.
-- A byte counter of the source that is decreased is a number here: `Blocks.Accounts` shows that it
-- never falls below 0.
pub mod State
pub mod Evict
pub mod Store
pub mod Accounts
pub mod Quota
pub mod Contents
