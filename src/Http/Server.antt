-- ===== src/Http/Server.antt =====
-- network/TcpServer.cpp and TcpConnection.hpp: what an IO thread does with the events of a connection.
-- The results of recv and send, the readiness of the socket and what handler_ does are arguments; `stoull`
-- and `show` stand for the standard library. The table of connections, the sockets and the threads are
-- left out.
pub mod Order
pub mod Closing
mod Tests
use distributed_key_value_st.Base.{
  ℕ, suc, ◌++◌, Bool, true, false, not, ◌&&◌, ◌||◌, Option, none, some, List, [], ◌∷◌,
  if◌then◌else◌, min, take, drop, length, Text, is_empty,
}
use distributed_key_value_st.Http.Request.{HttpRequest, is_keep_alive}
use distributed_key_value_st.Http.Response.{HttpResponse, serialise}
use distributed_key_value_st.Http.Parser.{
  HttpParser, ParseResult, Parsed, parsed, thrown, stuck, feed, take_request,
}

-- `polls_write` is whether epoll waits for EPOLLOUT on the socket, too. A new connection does not have it.
pub record TcpConnection : Type 0 where
  pub parser : HttpParser
  pub write_buf : Text
  pub marked_close : Bool
  pub polls_write : Bool

-- One call of handler_, which may change the request: what it makes of any request, in the state that
-- the store and the node are in at that time.
abbrev pub Handler : Type 0
Handler = HttpRequest → HttpRequest × HttpResponse

-- What recv gives: bytes, the end of the stream, nothing for now (EAGAIN), or another error. Bytes complete
-- one request at most, and come with the call of handler_ that is then made.
pub data Received : Type 0 where
  bytes : Text → Handler → Received
  end_of_stream : Received
  not_yet : Received
  broken : Received

-- What send gives: `took n` is n + 1 bytes, or all where there are fewer; nothing for now (EAGAIN), or another error.
pub data Sent : Type 0 where
  took : ℕ → Sent
  full : Sent
  failed : Sent

unfoldable pub queue_write : Text → TcpConnection → TcpConnection
queue_write text c = record c { write_buf = c.write_buf ++ text }

unfoldable pub has_pending_write : TcpConnection → Bool
unfolding is_empty
has_pending_write c = not (is_empty c.write_buf)

abbrev pub mark_close : TcpConnection → TcpConnection
mark_close c = record c { marked_close = true }

-- The loop of HandleWrite: the bytes sent, and the connection. Where the results of send end, it waits.
unfoldable pub handle_write : List Sent → TcpConnection → Text × TcpConnection
unfolding is_empty
handle_write [] c = ([], c)
handle_write (took n ∷ results) c =
    let k = min (suc n) (length c.write_buf) in
    let rest = handle_write results (record c { write_buf = drop k c.write_buf }) in
    if is_empty c.write_buf then ([], c) else (take k c.write_buf ++ rest.0, rest.1)
handle_write (full ∷ results) c = ([], c)
handle_write (failed ∷ results) c = ([], if is_empty c.write_buf then c else mark_close c)

module _ (show : ℕ → Text) (handler : Handler) where
  -- A complete request. EPOLLOUT is registered for the response.
  unfoldable pub answer_request : HttpParser → TcpConnection → TcpConnection
  unfolding take_request is_keep_alive queue_write serialise
  answer_request p c =
      let (req, parser) = take_request p in
      let (req', response) = handler req in
      let keep_alive = is_keep_alive req' && not c.marked_close in
      let queued =
        queue_write (serialise show keep_alive response)
          (record c { parser = parser; polls_write = true }) in
      if keep_alive then queued else mark_close queued

  -- What Feed ends with; `none` is its exception, which nothing catches.
  unfoldable pub on_parsed : Parsed → TcpConnection → Option TcpConnection
  unfolding answer_request
  on_parsed (parsed ParseResult.complete p) c = some (answer_request p c)
  on_parsed (parsed ParseResult.incomplete p) c = some (record c { parser = p })
  on_parsed (parsed ParseResult.error p) c = some (record c { parser = p })
  on_parsed thrown c = none
  on_parsed stuck c = none

module _ (stoull : Text → Option ℕ) (show : ℕ → Text) where
  -- The loop of HandleRead over the results of recv, up to the one that ends it.
  unfoldable pub handle_read : List Received → TcpConnection → Option TcpConnection
  unfolding feed on_parsed
  handle_read [] c = some c
  handle_read (bytes s handler ∷ results) c =
      elim (on_parsed show handler (feed stoull s c.parser) c) [
        | none ↦ none
        | some d ↦ handle_read results d
      ]
  handle_read (end_of_stream ∷ results) c = some (mark_close c)
  handle_read (not_yet ∷ results) c = some c
  handle_read (broken ∷ results) c = some (mark_close c)

-- One event of epoll: the readiness of the socket, and what recv and send give while it is handled.
-- That it is writable is reported where EPOLLOUT is registered.
pub record Event : Type 0 where
  pub hung_up : Bool
  pub readable : Bool
  pub writable : Bool
  pub received : List Received
  pub sends : List Sent

-- The bytes sent, and the connection, or that it is closed; or the end of the program.
pub data Handled : Type 0 where
  remains : Text → TcpConnection → Handled
  closed : Text → Handled
  terminated : Handled

-- Behind the reading: the part for EPOLLOUT, which may be reported, and the closing.
unfoldable pub write_or_close : Event → Bool → Bool → TcpConnection → Handled
unfolding handle_write has_pending_write
write_or_close e reported should_close c =
    let (sent, d) = handle_write e.sends c in
    if should_close
    then closed []
    else if reported
    then (if d.marked_close && not (has_pending_write d) then closed sent else remains sent d)
    else remains [] c

-- The body of the loop of IoLoop.
unfoldable pub io_event : (Text → Option ℕ) → (ℕ → Text) → Event → TcpConnection → Handled
unfolding handle_read write_or_close
io_event stoull show e c =
    let reported = e.writable && c.polls_write in
    if e.hung_up
    then closed []
    else if e.readable
    then elim (handle_read stoull show e.received c) [
      | none ↦ terminated
      | some d ↦ write_or_close e reported d.marked_close d
    ]
    else write_or_close e reported false c

unfoldable pub sent_before : Text → Handled → Handled
sent_before sent (remains more c) = remains (sent ++ more) c
sent_before sent (closed more) = closed (sent ++ more)
sent_before sent terminated = terminated

-- What comes next, where the connection is still there.
unfoldable pub go_on : (TcpConnection → Handled) → Handled → Handled
unfolding sent_before
go_on next (remains sent c) = sent_before sent (next c)
go_on next (closed sent) = closed sent
go_on next terminated = terminated

-- The events of a connection as long as it is open: all bytes sent, and the connection.
unfoldable pub io_events : (Text → Option ℕ) → (ℕ → Text) → List Event → TcpConnection → Handled
unfolding io_event go_on
io_events stoull show [] c = remains [] c
io_events stoull show (e ∷ es) c = go_on (io_events stoull show es) (io_event stoull show e c)
