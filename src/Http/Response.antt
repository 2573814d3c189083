-- ===== src/Http/Response.antt =====
-- network/HttpResponse.hpp and HttpResponse.cpp. `dump` stands for nlohmann::json, `show` for the decimal
-- digits that a stream writes for a number. Headers are in the order in which the map is run through.
use distributed_key_value_st.Base.{
  ℕ, Bool, [], ◌∷◌, ◌++◌, if◌then◌else◌, ◌==◌, Text, codes, Assoc, assign, length,
}
use distributed_key_value_st.Base.Json.{Json, string, object, field, end}

pub record HttpResponse : Type 0 where
  pub status_code : ℕ
  pub headers : Assoc Text
  pub body : Text

-- `HttpResponse r;` with a status code, a body and the header Content-Type.
unfoldable pub typed : ℕ → Text → Text → HttpResponse
typed code body content_type = record {
  status_code = code;
  headers = (codes "Content-Type", content_type) ∷ [];
  body = body;
}

unfoldable pub respond_ok : Text → HttpResponse
unfolding typed
respond_ok body = typed 200 body (codes "application/json")

unfoldable pub respond_created : Text → HttpResponse
unfolding typed
respond_created body = typed 201 body (codes "application/json")

abbrev pub no_content : HttpResponse
no_content = record { status_code = 204; headers = []; body = [] }

module _ (dump : Json → Text) where
  unfoldable pub json_error : Text → Text
  json_error msg = dump (object (field (codes "error") (string msg) end))

  unfoldable pub bad_request : Text → HttpResponse
  unfolding json_error typed
  bad_request msg = typed 400 (json_error msg) (codes "application/json")

  unfoldable pub unauthorized : Text → HttpResponse
  unfolding json_error typed assign
  unauthorized msg =
      let r = typed 401 (json_error msg) (codes "application/json") in
      record r {
        headers = assign (codes "WWW-Authenticate") (codes "Bearer realm=\"orcdb\"") r.headers;
      }

  unfoldable pub forbidden : Text → HttpResponse
  unfolding json_error typed
  forbidden msg = typed 403 (json_error msg) (codes "application/json")

  unfoldable pub not_found : Text → HttpResponse
  unfolding json_error typed
  not_found msg = typed 404 (json_error msg) (codes "application/json")

  unfoldable pub conflict : Text → HttpResponse
  unfolding json_error typed
  conflict msg = typed 409 (json_error msg) (codes "application/json")

  unfoldable pub internal_error : Text → HttpResponse
  unfolding json_error typed
  internal_error msg = typed 500 (json_error msg) (codes "application/json")

  unfoldable pub service_unavailable : Text → HttpResponse
  unfolding json_error typed
  service_unavailable msg = typed 503 (json_error msg) (codes "application/json")

unfoldable pub temporary_redirect : Text → HttpResponse
temporary_redirect location = record {
  status_code = 307;
  headers = (codes "Location", location) ∷ [];
  body = [];
}

unfoldable pub set_header : Text → Text → HttpResponse → HttpResponse
unfolding assign
set_header key value r = record r { headers = assign key value r.headers }

unfoldable pub set_body : Text → Text → HttpResponse → HttpResponse
unfolding assign
set_body body content_type r = record r {
  body = body;
  headers = assign (codes "Content-Type") content_type r.headers;
}

unfoldable pub status_text : ℕ → Text
status_text code =
    if code == 200
    then codes "OK"
    else if code == 201
    then codes "Created"
    else if code == 204
    then codes "No Content"
    else if code == 307
    then codes "Temporary Redirect"
    else if code == 400
    then codes "Bad Request"
    else if code == 401
    then codes "Unauthorized"
    else if code == 403
    then codes "Forbidden"
    else if code == 404
    then codes "Not Found"
    else if code == 409
    then codes "Conflict"
    else if code == 500
    then codes "Internal Server Error"
    else if code == 503
    then codes "Service Unavailable"
    else codes "Unknown"

-- The loop over the headers.
unfoldable pub header_lines : Assoc Text → Text
header_lines [] = []
header_lines ((k, v) ∷ headers) = k ++ (codes ": " ++ (v ++ (codes "\r\n" ++ header_lines headers)))

unfoldable pub serialise : (ℕ → Text) → Bool → HttpResponse → Text
unfolding status_text header_lines
serialise show keep_alive r =
    codes "HTTP/1.1 "
    ++ (show r.status_code
        ++ (codes " "
            ++ (status_text r.status_code
                ++ (codes "\r\n"
                    ++ (header_lines r.headers
                        ++ (codes "Content-Length: "
                            ++ (show (length r.body)
                                ++ (codes "\r\nConnection: "
                                    ++ ((if keep_alive then codes "keep-alive" else codes "close")
                                        ++ (codes "\r\n\r\n" ++ r.body))))))))))
