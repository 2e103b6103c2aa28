-- ===== src/Query/Handlers.antt =====
-- dnsviz/query.py: the response handlers, each its method `handle` as a function of what arrived
-- and of the shared context. A Python write that precedes a raise or a return shows in the context
-- that comes back. Times are in milliseconds, so 0.2 seconds are 200.
mod Common
mod Network
mod Edns
mod Transport
unfoldable pub use Common.*
unfoldable pub use Network.*
unfoldable pub use Edns.*
unfoldable pub use Transport.*
