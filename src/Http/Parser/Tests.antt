-- ===== src/Http/Parser/Tests.antt =====
-- network/HttpParser.cpp: the parser on a small request.
use distributed_key_value_st.Base.{
  ℕ, ◌≡◌, refl, Option, none, some, [], ◌∷◌, ◌++◌, arith, if◌then◌else◌, Text, codes, text_eq,
  length, Assoc, assign,
}
use distributed_key_value_st.Http.Request.{find_lower, to_lower}
use distributed_key_value_st.Http.Parser.{
  HttpParser, ParseResult, parsed, new, feed, content_length_of, is_space, trim_left,
}
use distributed_key_value_st.Http.Parser.Lines.{Avoids}
use distributed_key_value_st.Http.Parser.Printed.{IsRequest, print_request, request_of, table_of}
use distributed_key_value_st.Http.Parser.Bytes.{Settled, feed-Settled}
use distributed_key_value_st.Http.Parser.RoundTrip.{announced, Delivers, Waits, feed_in_two}
use distributed_key_value_st.Http.Parser.Announced.{Announces, has_value}
use distributed_key_value_st.Http.Parser.Whole.{print_target, feed-whole}

abbrev two_digits : Text → Option ℕ
two_digits s = if text_eq s (codes "2") then some 2 else none

abbrev put_headers : Assoc Text
put_headers = (codes "Host", codes "db") ∷ (codes "content-length", codes "2") ∷ []

abbrev param_headers : Assoc Text
param_headers = (codes "Host", codes "db") ∷ (codes "Content-Length", codes "2") ∷ []

put_headers-IsRequest : IsRequest (codes "PUT") (codes "/kv/a?x=1") (codes "HTTP/1.1") put_headers
unfolding is_space trim_left
put_headers-IsRequest =
    ((ground arith, λ e. cc), (ground arith, λ e. cc), ground arith, ground arith)

put_headers-announced : announced two_digits put_headers ≡ some (length (codes "hi"))
unfolding content_length_of text_eq find_lower assign
put_headers-announced = refl

hi-Avoids : Avoids 13 (codes "hi")
hi-Avoids = ground arith

feed-Settled_example : Settled 10 (feed two_digits (codes "GET /a\r\n\r\n") new)
feed-Settled_example = feed-Settled two_digits (codes "GET /a\r\n\r\n") new (omega arith)

abbrev one_param : Assoc Text
one_param = (codes "x", codes "1") ∷ []

put_target : print_target (codes "/kv/a") one_param ≡ codes "/kv/a?%78=%31"
put_target = refl

param_headers-IsRequest :
    IsRequest
      (codes "PUT")
      (print_target (codes "/kv/a") one_param)
      (codes "HTTP/1.1")
      param_headers
unfolding is_space trim_left
param_headers-IsRequest =
    ((ground arith, λ e. cc), (ground arith, λ e. cc), ground arith, ground arith)

param_headers-Announces : Announces two_digits param_headers 2
unfolding to_lower text_eq
param_headers-Announces =
    has_value ((codes "Host", codes "db") ∷ []) [] (codes "2") 2 refl
      (λ e. absurd (cc (e)), (λ e. refl, tt)) refl

feed-whole_example :
    Delivers
      (record {
        method = codes "PUT";
        path = codes "/kv/a";
        version = codes "HTTP/1.1";
        headers = table_of param_headers [];
        body = codes "hi";
        query_params = table_of one_param [];
        path_params = [];
      })
      (codes "GET")
      (feed two_digits
        (print_request
          (codes "PUT")
          (print_target (codes "/kv/a") one_param)
          (codes "HTTP/1.1")
          param_headers
          (codes "hi" ++ codes "GET"))
        new)
feed-whole_example =
    feed-whole two_digits (codes "PUT") (codes "/kv/a") (codes "HTTP/1.1") one_param param_headers
      (codes "hi") (codes "GET") (ground arith) (ground arith) param_headers-IsRequest
      param_headers-Announces (omega arith)

feed_in_two_example :
    (p : HttpParser) × (feed two_digits
        (print_request (codes "PUT") (codes "/kv/a?x=1") (codes "HTTP/1.1") put_headers [])
        new
      ≡ parsed ParseResult.incomplete p)
    × Waits
        (request_of (codes "PUT") (codes "/kv/a?x=1") (codes "HTTP/1.1") put_headers [])
        (codes "hi")
        (feed two_digits (codes "hi") p)
feed_in_two_example =
    feed_in_two two_digits (codes "PUT") (codes "/kv/a?x=1") (codes "HTTP/1.1") put_headers
      (codes "hi") put_headers-IsRequest put_headers-announced (omega arith) (omega arith) hi-Avoids
