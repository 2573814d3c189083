-- ===== src/Http/Server/Tests.antt =====
-- network/TcpServer.cpp: two requests over a connection.
use distributed_key_value_st.Base.{
  ℕ, ◌≡◌, ◌≤◌, refl, ◌++◌, true, false, Option, none, some, [], ◌∷◌, arith, Text, codes, text_eq,
  length, Assoc, assign,
}
use distributed_key_value_st.Http.Request.{HttpRequest, is_keep_alive, find_lower}
use distributed_key_value_st.Http.Response.{HttpResponse, serialise}
use distributed_key_value_st.Http.Parser.{new, content_length_of, is_space, trim_left, split_path}
use distributed_key_value_st.Http.Parser.Printed.{IsRequest, print_request, request_of}
use distributed_key_value_st.Http.Parser.RoundTrip.{announced}
use distributed_key_value_st.Http.Server.{
  TcpConnection, Handler, bytes, not_yet, took, Event, remains, closed, io_event, io_events,
}
use distributed_key_value_st.Http.Server.Order.{requests_of, responses, io_events-responses}
use distributed_key_value_st.Http.Server.Closing.{close_loses_response, keep_alive_answered}

abbrev no_digits : Text → Option ℕ
no_digits s = none

abbrev show : ℕ → Text
show n = codes "0"

abbrev empty_response : HttpResponse
empty_response = record { status_code = 200; headers = []; body = [] }

abbrev handler : Handler
handler req = (req, empty_response)

abbrev host : Assoc Text
host = (codes "Host", codes "db") ∷ []

abbrev closing : Assoc Text
closing = (codes "Connection", codes "close") ∷ []

host-IsRequest : IsRequest (codes "GET") (codes "/a") (codes "HTTP/1.1") host
unfolding is_space trim_left
host-IsRequest = ((ground arith, λ e. cc), (ground arith, λ e. cc), ground arith, ground arith)

closing-IsRequest : IsRequest (codes "GET") (codes "/a") (codes "HTTP/1.1") closing
unfolding is_space trim_left
closing-IsRequest = ((ground arith, λ e. cc), (ground arith, λ e. cc), ground arith, ground arith)

host-announced : announced no_digits host ≡ some 0
unfolding content_length_of text_eq find_lower assign
host-announced = refl

closing-announced : announced no_digits closing ≡ some 0
unfolding content_length_of text_eq find_lower assign
closing-announced = refl

abbrev connection : TcpConnection
connection = record { parser = new; write_buf = []; marked_close = false; polls_write = false }

abbrev request_text : Assoc Text → Text → Text
request_text hs rest = print_request (codes "GET") (codes "/a") (codes "HTTP/1.1") hs rest

-- The bytes are there.
abbrev event : Assoc Text → Text → Event
event hs rest = record {
  hung_up = false;
  readable = true;
  writable = true;
  received = bytes (request_text hs rest) handler ∷ not_yet ∷ [];
  sends = took 999 ∷ [];
}

-- The socket takes up to 1000 bytes.
abbrev flush : Event
flush = record {
  hung_up = false;
  readable = false;
  writable = true;
  received = [];
  sends = took 999 ∷ [];
}

abbrev host_request : HttpRequest
host_request = request_of (codes "GET") (codes "/a") (codes "HTTP/1.1") host []

host_keeps : is_keep_alive host_request ≡ true
unfolding is_keep_alive split_path assign
host_keeps = refl

closing_closes :
    is_keep_alive (request_of (codes "GET") (codes "/a") (codes "HTTP/1.1") closing []) ≡ false
unfolding is_keep_alive split_path assign
closing_closes = refl

close_loses_response_example : io_event no_digits show (event closing []) connection ≡ closed []
close_loses_response_example =
    close_loses_response no_digits show handler (codes "GET") (codes "/a") (codes "HTTP/1.1")
      closing [] [] closing-IsRequest closing-announced (omega arith) (event closing []) connection
      refl refl refl refl refl closing_closes

-- A second request in the same piece.
abbrev second : Text
second = codes "GET /b HTTP/1.1\r\n\r\n"

abbrev after : TcpConnection
after = record {
  parser = record new { buffer = second };
  write_buf = [];
  marked_close = false;
  polls_write = true;
}

response_fits : length (serialise show true empty_response) ≤ 1000
unfolding serialise
response_fits = omega arith

whole_answered :
    io_events no_digits show (event host second ∷ flush ∷ []) connection
    ≡ remains (serialise show true empty_response) after
whole_answered =
    keep_alive_answered no_digits show handler (codes "GET") (codes "/a") (codes "HTTP/1.1") host []
      second host-IsRequest host-announced (omega arith) (event host second) flush connection 999 []
      refl refl refl refl refl refl refl refl refl refl refl response_fits host_keeps

keep_alive_answered_example :
    io_events no_digits show (event host second ∷ flush ∷ []) connection
    ≡ remains (serialise show true empty_response) after
keep_alive_answered_example =
    keep_alive_answered no_digits show handler (codes "GET") (codes "/a") (codes "HTTP/1.1") host []
      second host-IsRequest host-announced (omega arith) (event host second) flush connection 999 []
      refl refl refl refl refl refl refl refl refl refl refl response_fits host_keeps

io_events-responses_example :
    let (reqs, p) = requests_of no_digits (event host second ∷ flush ∷ []) new in
    (serialise show true empty_response ++ [] ≡ responses show reqs)
    × (record new { buffer = second } ≡ p)
io_events-responses_example =
    io_events-responses no_digits show (event host second ∷ flush ∷ []) connection after
      (serialise show true empty_response) whole_answered

-- An event with nothing to read.
nothing_to_do : io_events no_digits show (flush ∷ []) connection ≡ remains [] connection
unfolding io_events
nothing_to_do = refl
