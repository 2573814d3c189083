-- ===== src/Http/Server/Closing.antt =====
-- network/TcpServer.cpp: what becomes of a request that comes in one piece.
use distributed_key_value_st.Base.{
  ℕ, suc, ◌≡◌, ◌<◌, ◌≤◌, refl, ap, ◌∙◌, ◌++◌, Bool, true, false, not, ◌&&◌, Option, some, List, [],
  ◌∷◌, arith, if◌then◌else◌, min, length, Text, u64_mod, Assoc, append_nil, take_all, drop_all,
}
use distributed_key_value_st.Http.Request.{HttpRequest, is_keep_alive}
use distributed_key_value_st.Http.Response.{serialise}
use distributed_key_value_st.Http.Parser.{
  HttpParser, ParseResult, Parsed, parsed, thrown, stuck, new, feed, take_request, reset,
}
use distributed_key_value_st.Http.Parser.Printed.{print_request, IsRequest, request_of}
use distributed_key_value_st.Http.Parser.RoundTrip.{announced, Delivers, feed-printed}
use distributed_key_value_st.Http.Server.{
  TcpConnection, Handler, bytes, not_yet, Sent, took, full, failed, queue_write, handle_write,
  answer_request, on_parsed, handle_read, Event, remains, closed, write_or_close, io_event,
  io_events, go_on, sent_before,
}

Delivers-complete :
    (req : HttpRequest) (rest : Text) (r : Parsed)
    → Delivers req rest r
    → (p : HttpParser) × (r ≡ parsed ParseResult.complete p) × (p.current ≡ req) × (p.buffer ≡ rest)
Delivers-complete req rest (parsed ParseResult.complete p) (current, left) =
    (p, refl, current, left)
Delivers-complete req rest (parsed ParseResult.incomplete p) h = absurd h
Delivers-complete req rest (parsed ParseResult.error p) h = absurd h
Delivers-complete req rest thrown h = absurd h
Delivers-complete req rest stuck h = absurd h

and_true : (b : Bool) → (b && true) ≡ b
and_true true = refl
and_true false = refl

module _ (stoull : Text → Option ℕ) (show : ℕ → Text) (handler : Handler) where
  -- The connection behind the request, with its response in the write buffer.
  abbrev pub answered : HttpRequest → Text → Bool → TcpConnection → TcpConnection
  answered req rest keep_alive c = record {
    parser = record new { buffer = rest };
    write_buf = c.write_buf ++ serialise show keep_alive (handler req).1;
    marked_close = if keep_alive then c.marked_close else true;
    polls_write = true;
  }

  answer_request-answered :
      (p : HttpParser) (c : TcpConnection) (keep_alive : Bool)
      → (is_keep_alive (handler p.current).0 && not c.marked_close) ≡ keep_alive
      → answer_request show handler p c ≡ answered p.current p.buffer keep_alive c
  unfolding answer_request queue_write take_request reset
  answer_request-answered p c true h = rw (h, answer_request) refl
  answer_request-answered p c false h = rw (h, answer_request) refl

  answer_request_lem :
      (p : HttpParser) (c : TcpConnection) (req : HttpRequest) (rest : Text) (keep_alive : Bool)
      → p.current ≡ req
      → p.buffer ≡ rest
      → c.marked_close ≡ false
      → is_keep_alive (handler req).0 ≡ keep_alive
      → answer_request show handler p c ≡ answered req rest keep_alive c
  answer_request_lem p c req rest keep_alive current left open' keeps =
      let kept : (is_keep_alive (handler p.current).0 && not c.marked_close) ≡ keep_alive =
        rw (current, keeps, open') (and_true keep_alive) in
      answer_request-answered p c keep_alive kept
      ∙ ap (λ r. answered r p.buffer keep_alive c) current
      ∙ ap (λ b. answered req b keep_alive c) left

  -- A request that comes in one piece, with `rest` behind it, is answered once.
  module _ (method target version : Text) (hs : Assoc Text) (body rest : Text)
      (lines : IsRequest method target version hs) (fits : announced stoull hs ≡ some (length body))
      (word : length body < u64_mod) where
    handle_read-whole :
        (c : TcpConnection) (keep_alive : Bool)
        → c.parser ≡ new
        → c.marked_close ≡ false
        → is_keep_alive (handler (request_of method target version hs body)).0 ≡ keep_alive
        → handle_read stoull show
            (bytes (print_request method target version hs (body ++ rest)) handler ∷ not_yet ∷ [])
            c
          ≡ some (answered (request_of method target version hs body) rest keep_alive c)
    unfolding handle_read on_parsed
    handle_read-whole c keep_alive at_start open' keeps =
        let text = print_request method target version hs (body ++ rest) in
        let req = request_of method target version hs body in
        let (p, fed, current, left) =
          Delivers-complete req rest (feed stoull text new)
            (feed-printed stoull method target version hs body rest lines fits word) in
        let fed_c : feed stoull text c.parser ≡ parsed ParseResult.complete p =
          ap (λ q. feed stoull text q) at_start ∙ fed in
        rw (fed_c, handle_read)
          (ap some (answer_request_lem p c req rest keep_alive current left open' keeps))

  -- A connection that has nothing to write to epoll yet is read.
  io_event-reads :
      (e : Event) (c d : TcpConnection)
      → e.hung_up ≡ false
      → e.readable ≡ true
      → c.polls_write ≡ false
      → handle_read stoull show e.received c ≡ some d
      → d.marked_close ≡ false
      → io_event stoull show e c ≡ remains [] d
  unfolding io_event write_or_close
  io_event-reads e c d alive reads polls read open' =
      ground (arith, alive, reads, polls, read, open')

  io_event-writes :
      (e : Event) (c : TcpConnection) (sent : Text) (d : TcpConnection)
      → e.hung_up ≡ false
      → e.readable ≡ false
      → e.writable ≡ true
      → c.polls_write ≡ true
      → handle_write e.sends c ≡ (sent, d)
      → d.marked_close ≡ false
      → io_event stoull show e c ≡ remains sent d
  unfolding io_event write_or_close
  io_event-writes e c sent d alive idle writes polls wrote open' =
      ground (arith, alive, idle, writes, polls, wrote, open')

  -- A connection that is marked while it is read is closed at once, with nothing sent.
  io_event-marked :
      (e : Event) (c d : TcpConnection)
      → e.hung_up ≡ false
      → e.readable ≡ true
      → handle_read stoull show e.received c ≡ some d
      → d.marked_close ≡ true
      → io_event stoull show e c ≡ closed []
  unfolding io_event write_or_close
  io_event-marked e c d alive reads read marked = ground (arith, alive, reads, read, marked)

abbrev at_buffer : HttpParser → Bool → Text → TcpConnection
at_buffer p marked buf = record {
  parser = p;
  write_buf = buf;
  marked_close = marked;
  polls_write = true;
}

handle_write-empty :
    (results : List Sent) (p : HttpParser) (marked : Bool)
    → handle_write results (at_buffer p marked []) ≡ ([], at_buffer p marked [])
unfolding handle_write
handle_write-empty [] p marked = refl
handle_write-empty (took n ∷ results) p marked = refl
handle_write-empty (full ∷ results) p marked = refl
handle_write-empty (failed ∷ results) p marked = refl

-- HandleWrite sends the whole buffer, where one send takes all of it.
handle_write-whole :
    (n : ℕ) (results : List Sent) (p : HttpParser) (marked : Bool) (buf : Text)
    → length buf ≤ suc n
    → handle_write (took n ∷ results) (at_buffer p marked buf) ≡ (buf, at_buffer p marked [])
unfolding handle_write
handle_write-whole n results p marked [] h = refl
handle_write-whole n results p marked (b ∷ buf) h =
    let whole : min (suc n) (suc (length buf)) ≡ suc (length buf) = omega arith in
    let none_left = handle_write-empty results p marked in
    rw (whole, handle_write)
      (rw (drop_all buf, none_left)
        (ap (λ t. (t, at_buffer p marked [])) (append_nil _ ∙ ap (◌∷◌ b) (take_all buf))))

module _ (stoull : Text → Option ℕ) (show : ℕ → Text) (handler : Handler)
    (method target version : Text) (hs : Assoc Text) (body rest : Text)
    (lines : IsRequest method target version hs) (fits : announced stoull hs ≡ some (length body))
    (word : length body < u64_mod) where
  -- A request comes in one piece on a new connection, and the handler leaves it as one that does not
  -- keep the connection: `Connection: close`, or HTTP/1.0. Then the connection is closed in the same
  -- event, and not a byte of the response is sent, whatever send would take.
  pub close_loses_response :
      (e : Event) (c : TcpConnection)
      → c.parser ≡ new
      → c.marked_close ≡ false
      → e.hung_up ≡ false
      → e.readable ≡ true
      → e.received
        ≡ bytes (print_request method target version hs (body ++ rest)) handler ∷ not_yet ∷ []
      → is_keep_alive (handler (request_of method target version hs body)).0 ≡ false
      → io_event stoull show e c ≡ closed []
  close_loses_response e c at_start open' alive reads received closes =
      let req = request_of method target version hs body in
      let read =
        handle_read-whole stoull show handler method target version hs body rest lines fits word c
          false at_start open' closes in
      let read_e : handle_read stoull show e.received c
          ≡ some (answered stoull show handler req rest false c) =
        ap (λ l. handle_read stoull show l c) received ∙ read in
      io_event-marked stoull show handler e c (answered stoull show handler req rest false c) alive
        reads read_e refl

  -- A request comes in one piece on a new connection, for which EPOLLOUT is not registered, and the
  -- handler leaves it as one that keeps the connection. The next event reports that the socket is
  -- writable, and the socket takes the response at once. Then exactly the response is sent, in the
  -- second event; the connection stays open with nothing left to write, and all bytes behind the request,
  -- whole further requests too, stay unanswered in the parser's buffer.
  pub keep_alive_answered :
      (e e' : Event) (c : TcpConnection) (n : ℕ) (sends : List Sent)
      → let req = request_of method target version hs body in
        c.parser ≡ new
        → c.marked_close ≡ false
        → c.write_buf ≡ []
        → c.polls_write ≡ false
        → e.hung_up ≡ false
        → e.readable ≡ true
        → e.received
          ≡ bytes (print_request method target version hs (body ++ rest)) handler ∷ not_yet ∷ []
        → e'.hung_up ≡ false
        → e'.readable ≡ false
        → e'.writable ≡ true
        → e'.sends ≡ took n ∷ sends
        → length (serialise show true (handler req).1) ≤ suc n
        → is_keep_alive (handler req).0 ≡ true
        → io_events stoull show (e ∷ e' ∷ []) c
          ≡ remains (serialise show true (handler req).1) (record {
            parser = record new { buffer = rest };
            write_buf = [];
            marked_close = false;
            polls_write = true;
          })
  unfolding io_events go_on sent_before
  keep_alive_answered e e' c n sends at_start open' empty polls alive reads received alive' idle
        writes sent long keeps =
      let req = request_of method target version hs body in
      let response = serialise show true (handler req).1 in
      let p : HttpParser = record new { buffer = rest } in
      let d = at_buffer p false response in
      let read =
        handle_read-whole stoull show handler method target version hs body rest lines fits word c
          true at_start open' keeps in
      let is_d : answered stoull show handler req rest true c ≡ d =
        ap (λ m. at_buffer p m (c.write_buf ++ response)) open'
        ∙ ap (λ b. at_buffer p false (b ++ response)) empty in
      let read_e : handle_read stoull show e.received c ≡ some d =
        ap (λ l. handle_read stoull show l c) received ∙ read ∙ ap some is_d in
      let wrote : handle_write e'.sends d ≡ (response, at_buffer p false []) =
        ap (λ l. handle_write l d) sent ∙ handle_write-whole n sends p false response long in
      let first = io_event-reads stoull show handler e c d alive reads polls read_e refl in
      let second =
        io_event-writes stoull show handler e' d response (at_buffer p false []) alive' idle writes
          refl wrote refl in
      rw (first, second, io_events)
        (ap (λ t. remains t (at_buffer p false [])) (append_nil response))
