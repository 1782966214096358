-- ===== src/Proxy.antt =====
-- package/server/server_tcp in front of package/client/client_tcp: what the connections of a
-- server ask of a component `client-tcp` that is the server's target, and what of the replies goes
-- out over the connections. The proofs are in the modules below.
--
-- The TCP server, which makes the connections and calls their handlers, is the library's: a history
-- says when it does. Between the server and its target stands a `winterface` of wfc, an argument:
-- the server's calls go to that object, which says what the target gets of them.
pub mod Requesting
pub mod Replying
pub mod Opening
pub mod Directly
mod Tests
use wfc_io.Prelude.{
  ℕ, Bool, true, Option, none, some, List, [], ◌∷◌, ◌++◌, map, ◌==◌, if◌then◌else◌,
}
use wfc_io.Iface.{
  DataPtr, Alive, Handler, external, Call, performs, registers, unregisters, invokes, Result, ok,
  fault, ◌>>=◌,
}
use wfc_io.Client.Adapter
use wfc_io.Client.System.{World}
use wfc_io.Client.Tcp.Component.{Component, Request, regs, unregs, sends}
use wfc_io.Client.Tcp.Component
use wfc_io.Server.Connection.{ConnectionOptions, wrap, on_startup, on_shutdown}
use wfc_io.Server.Connection
use wfc_io.Server.Tcp.{ServerTcp, run_options, receive}
use wfc_io.Server.Tcp

-- What the library's server does with a connection: it begins, with a number and an identifier, it
-- gets data, to be answered through a handler, and it ends.
pub data Happening : Type 0 where
  opens : ℕ → ℕ → Happening
  comes : ℕ → DataPtr → ℕ → Happening
  ends : ℕ → ℕ → Happening

-- A server that runs, the options of its connections as they are configured, the functions of these
-- options for the begin and the end of a connection, and its `winterface`.
pub record Front : Type 0 where
  pub server : ServerTcp
  pub connection : ConnectionOptions
  pub startup : Option ℕ
  pub shutdown : Option ℕ
  -- What the `winterface` asks of its target for a call that it gets, while it is suspended or not.
  pub passes_on : Bool → Request → List Request

-- The options with which a connection begins.
pub options_of : Front → ℕ → ConnectionOptions
options_of f conn =
    wrap conn f.startup f.shutdown
      (record f.connection { target = (run_options f.server).connection_target })

abbrev pub connection_calls : List Connection.Event → List Call
connection_calls [] = []
connection_calls (Connection.calls c ∷ es) = c ∷ connection_calls es
connection_calls (e ∷ es) = connection_calls es

abbrev pub server_calls : List Tcp.Event → List Call
server_calls [] = []
server_calls (Tcp.calls c ∷ es) = c ∷ server_calls es
server_calls (e ∷ es) = server_calls es

-- The calls of other objects that follow.
pub calls_of : Alive → Front → Happening → Result (List Call)
calls_of alive f (opens conn id) =
    ok (connection_calls (on_startup alive id (options_of f conn).startup_handler))
calls_of alive f (comes id d h) = elim (run_options f.server).input_handler [
  | none ↦ ok []
  | some a ↦ do es ← receive a d id (external h); ok (server_calls es)
]
calls_of alive f (ends conn id) =
    ok (connection_calls (on_shutdown alive id (options_of f conn).shutdown_handler))

-- Those of them that an object gets, as requests.
abbrev pub requests_to : ℕ → List Call → List Request
requests_to t [] = []
requests_to t (performs n d id handler ∷ cs) =
    let rest = requests_to t cs in if n == t then sends d id handler ∷ rest else rest
requests_to t (registers n id itf ∷ cs) =
    let rest = requests_to t cs in if n == t then regs id itf ∷ rest else rest
requests_to t (unregisters n id ∷ cs) =
    let rest = requests_to t cs in if n == t then unregs id ∷ rest else rest
requests_to t (invokes h d ∷ cs) = requests_to t cs

-- What a `winterface` asks of its target for the calls that it gets.
pub passed_on : (Request → List Request) → List Request → List Request
passed_on pass [] = []
passed_on pass (r ∷ rs) = pass r ++ passed_on pass rs

-- This component, which is the target, when the server's connections do so. The `winterface` has
-- the number t, and is suspended as the server is, which `initialize` and `reconfigure_basic` see
-- to.
pub happen : ℕ → Front → World → Happening → Component → Result Component
unfolding calls_of passed_on
happen t f w h c = do
  cs ← calls_of w.alive f h
  let rs = passed_on (f.passes_on f.server.suspended) (requests_to t cs)
  Component.run (map (λ r. (w, r)) rs) c

pub history : ℕ → Front → List (World × Happening) → Component → Result Component
unfolding happen
history t f [] c = ok c
history t f ((w, h) ∷ hs) c = do d ← happen t f w h c; history t f hs d

-- What goes out over connections, all of which have a handler for it, by their numbers.
abbrev pub sent : ℕ → List Connection.Event → List (ℕ × DataPtr)
sent n [] = []
sent n (Connection.sends d ∷ es) = (n, d) ∷ sent n es
sent n (e ∷ es) = sent n es

pub outgoing : List Adapter.Event → List (ℕ × DataPtr)
unfolding Connection.perform_io
outgoing [] = []
outgoing (Adapter.calls (performs n d id handler) ∷ es) =
    sent n (Connection.perform_io true d id handler) ++ outgoing es
outgoing (e ∷ es) = outgoing es
