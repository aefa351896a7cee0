-- ===== src/Connection.antt =====
-- `Connection` of include/db_connection.h and src/db_connection.cpp, as its thread runs it. What the
-- system answers is a parameter of each call; `opened` are the sockets that it holds open.
pub mod Sockets
use hft_backtester.Prelude.{
  ℕ, Bool, true, false, not, Option, none, some, List, [], ◌∷◌, ◌++◌, ◌==◌, if◌then◌else◌, take,
}
use hft_backtester.Text.{Bytes}

-- `sock` is `none` at -1. `sent` is what the system took, an entry for each
-- call of `send` that did not fail.
pub record Connection : Type 0 where
  pub sock : Option ℕ
  pub active : Bool
  pub opened : List ℕ
  pub sent : List Bytes

-- The answers to one line: the new socket if there is one, whether the options are set and the address
-- answers, and the result of `send`: the number of bytes that are taken, or `none` for -1.
pub record Answers : Type 0 where
  pub socket : Option ℕ
  pub options : Bool
  pub connects : Bool
  pub takes : Option ℕ

-- `close` of a socket
pub without_socket : ℕ → List ℕ → List ℕ
without_socket s [] = []
without_socket s (t ∷ ts) = let rest = without_socket s ts in if s == t then ts else t ∷ rest

-- The constructor; `none` is its exception at an address that inet_pton refuses.
pub new_connection : (valid : Bool) → Option Connection
new_connection false = none
new_connection true = some (record { sock = none; active = false; opened = []; sent = [] })

-- The two failures behind `socket`.
pub given_up : ℕ → Connection → Bool × Connection
unfolding without_socket
given_up s c = (false, record c { sock = none; opened = without_socket s c.opened })

pub connect_on : Option ℕ → Answers → Connection → Bool × Connection
unfolding given_up
connect_on none a c = (false, record c { sock = none })
connect_on (some s) a c =
    let c' : Connection = record c { sock = some s; opened = s ∷ c.opened } in
    if not a.options
    then given_up s c'
    else if not a.connects
    then given_up s c'
    else (true, record c' { active = true })

pub connect : Answers → Connection → Bool × Connection
unfolding connect_on
connect a c = connect_on a.socket a c

pub connected : Option ℕ → Answers → Connection → Bool × Connection
unfolding connect
connected none a c = connect a c
connected (some s) a c = (true, c)

pub ensure_connected : Answers → Connection → Bool × Connection
unfolding connected
ensure_connected a c = connected c.sock a c

pub closed_sock : Option ℕ → Connection → Connection
unfolding without_socket
closed_sock none c = c
closed_sock (some s) c = record c { sock = none; opened = without_socket s c.opened }

pub reconnect : Connection → Connection
unfolding closed_sock
reconnect c = record (closed_sock c.sock c) { active = false }

-- What the test of `sent_bytes` does: only an error is told from success, so that the rest of a line of
-- which fewer bytes are taken is not sent again.
pub after_send : Option ℕ → Bytes → Connection → Connection
unfolding reconnect
after_send none line c = reconnect c
after_send (some n) line c = record c { sent = c.sent ++ take n line ∷ [] }

-- A line that was dequeued.
pub send_line : Bytes → Answers → Bool × Connection → Connection
unfolding after_send
send_line line a (false, c) = c
send_line line a (true, c) = after_send a.takes line c

-- The loop over the lines that are dequeued, each with its answers.
pub process_database_queue : List (Bytes × Answers) → Connection → Connection
unfolding send_line ensure_connected
process_database_queue [] c = c
process_database_queue ((line, a) ∷ rest) c =
    process_database_queue rest (send_line line a (ensure_connected a c))

-- The destructor, once the thread has ended.
pub destroy_connection : Connection → Connection
unfolding closed_sock
destroy_connection c = closed_sock c.sock c
