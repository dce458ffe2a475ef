-- ===== src/G2util/Graceful.antt =====
-- g2util/graceful.go: what is released at a shutdown, and in which order. A release that takes more
-- than its time is left behind (g2util/functions.go `TimeoutExecFunc`), so the trace is of starts.
pub mod Order
pub mod Signals
use gof.Base.{ℕ, Bool, List, [], ◌∷◌, ◌++◌, map, if◌then◌else◌, Text}

-- a registered object: who it is, and whether it is an `io.Writer`
pub record Process : Type 0 where
  pub id : ℕ
  pub is_writer : Bool

-- `Graceful`, with servers by their addresses
pub record Graceful : Type 0 where
  pub process_list : List Process
  pub srv_list : List Text

-- what the shutdown starts, in order
pub data Start : Type 0 where
  server : Text → Start
  process : Process → Start

-- `RegProcessor` and `RegHTTPServer`
unfoldable pub reg_processor : Process → Graceful → Graceful
reg_processor p g = record g { process_list = g.process_list ++ p ∷ [] }

unfoldable pub reg_http_server : Text → Graceful → Graceful
reg_http_server srv g = record g { srv_list = g.srv_list ++ srv ∷ [] }

-- the loop over the processes left: those that are writers wait in the list
unfoldable pub first_loop : List Process → List Start → List Process → List Start × List Process
first_loop [] trace waiting = (trace, waiting)
first_loop (p ∷ ps) trace waiting =
    let now = first_loop ps (trace ++ process p ∷ []) waiting in
    let later = first_loop ps trace (waiting ++ p ∷ []) in if p.is_writer then later else now

-- `shutdownAction`
unfoldable pub shutdown_action : Graceful → List Start
unfolding first_loop
shutdown_action g =
    let (trace, waiting) = first_loop g.process_list (map server g.srv_list) [] in
    trace ++ map process waiting

pub data Signal : Type 0 where
  sigint sigquit sigterm sigusr1 sigurg sigpipe sigchld : Signal
  unknown : ℕ → Signal

-- how the loop of `StartSignal` stands after some signals: it waits, it has shut down, or it has
-- returned without
pub data Phase : Type 0 where
  waiting : Phase
  shut : List Start → Phase
  left : Phase

-- A signal that comes, and whether the loop waits for one then. The channel `sig` has no buffer, and
-- package signal does not wait for a reader, so a signal that comes while the loop is busy is dropped.
pub record Arrival : Type 0 where
  pub signal : Signal
  pub is_awaited : Bool

unfoldable pub delivered : List Arrival → List Signal
delivered [] = []
delivered (a ∷ as') = let rest = delivered as' in if a.is_awaited then a.signal ∷ rest else rest

-- the loop of `StartSignal` on the signals that it reads, in their order
unfoldable pub read_signals : Graceful → List Signal → Phase
unfolding shutdown_action
read_signals g [] = waiting
read_signals g (sigint ∷ ss) = shut (shutdown_action g)
read_signals g (sigquit ∷ ss) = shut (shutdown_action g)
read_signals g (sigterm ∷ ss) = shut (shutdown_action g)
read_signals g (sigusr1 ∷ ss) = left
read_signals g (sigurg ∷ ss) = read_signals g ss
read_signals g (sigpipe ∷ ss) = read_signals g ss
read_signals g (sigchld ∷ ss) = read_signals g ss
read_signals g (unknown n ∷ ss) = read_signals g ss

-- `StartSignal` on the signals that come
unfoldable pub start_signal : Graceful → List Arrival → Phase
unfolding delivered read_signals
start_signal g as' = read_signals g (delivered as')
