-- ===== src/Http/Parser/Whole.antt =====
-- network/HttpParser.cpp: a whole request, with its path, its query and its headers.
use distributed_key_value_st.Base.{
  ℕ, ◌<◌, ◌≡◌, ◌≢◌, refl, ap, ◌∙◌, Option, none, [], ◌∷◌, ◌++◌, map, arith, Text, length, ◌⊎◌, ◌/◌,
  ◌%◌, inl, inr, append_nil, u64_mod, All, Assoc, assign, subst,
}
use distributed_key_value_st.Http.Request.{HttpRequest, no_request}
use distributed_key_value_st.Http.Url.{
  cut_at, prepend, split_pairs, add_param, add_params, parse_query_string,
}
use distributed_key_value_st.Http.Url.Decode.{hex_digit, percent_encode, url_decode-percent_encode}
use distributed_key_value_st.Http.Parser.{split_path, feed, new}
use distributed_key_value_st.Http.Parser.Lines.{Avoids, Avoids-append, cut_at-first}
use distributed_key_value_st.Http.Parser.Printed.{print_request, table_of, IsRequest}
use distributed_key_value_st.Http.Parser.RoundTrip.{Delivers, feed-printed}
use distributed_key_value_st.Http.Parser.Announced.{Announces, announced-Announces}

abbrev print_pair : Text × Text → Text
print_pair (k, v) = percent_encode k ++ b'=' ∷ percent_encode v

abbrev print_more : Assoc Text → Text
print_more [] = []
print_more (p ∷ ps) = b'&' ∷ print_pair p ++ print_more ps

-- The target of a request: the path, and behind `?` the parameters, percent-encoded, with `&` between.
abbrev pub print_target : Text → Assoc Text → Text
print_target path [] = path
print_target path (p ∷ ps) = path ++ b'?' ∷ (print_pair p ++ print_more ps)

-- Every byte of the names and the values.
abbrev pub IsParams : Assoc Text → Type 0
IsParams ps = All (λ p. All (λ c. c < 256) p.0 × All (λ c. c < 256) p.1) ps

hex_digit-other : (n a : ℕ) → n < 16 → (a ≡ b'&') ⊎ (a ≡ b'=') → hex_digit n ≢ a
hex_digit-other n a h (inl e) d = absurd (ground (arith, d, e))
hex_digit-other n a h (inr e) d = absurd (ground (arith, d, e))

-- The characters that percent-encoding writes are none of these.
Avoids-percent_encode :
    (a : ℕ) (s : Text)
    → All (λ c. c < 256) s
    → (a ≡ b'&') ⊎ (a ≡ b'=')
    → Avoids a (percent_encode s)
Avoids-percent_encode a [] h k = tt
Avoids-percent_encode a (c ∷ s) h (inl e) = (
  λ d. absurd (omega (arith, d, e)),
  (
    hex_digit-other (c / 16) a (omega (arith, h.0)) (inl e),
    (hex_digit-other (c % 16) a (omega arith) (inl e), Avoids-percent_encode a s h.1 (inl e)),
  ),
)
Avoids-percent_encode a (c ∷ s) h (inr e) = (
  λ d. absurd (omega (arith, d, e)),
  (
    hex_digit-other (c / 16) a (omega (arith, h.0)) (inr e),
    (hex_digit-other (c % 16) a (omega arith) (inr e), Avoids-percent_encode a s h.1 (inr e)),
  ),
)

Avoids-print_pair :
    (p : Text × Text) → All (λ c. c < 256) p.0 → All (λ c. c < 256) p.1 → Avoids b'&' (print_pair p)
Avoids-print_pair (k, v) h h' =
    Avoids-append b'&' (percent_encode k) (b'=' ∷ percent_encode v)
      (Avoids-percent_encode b'&' k h (inl refl))
      (λ e. absurd (omega arith), Avoids-percent_encode b'&' v h' (inl refl))

print_pair-some : (p : Text × Text) → print_pair p ≢ []
print_pair-some ([], v) e = cc (e)
print_pair-some (c ∷ k, v) e = cc (e)

split_pairs-and : (rest : Text) → split_pairs (b'&' ∷ rest) ≡ [] ∷ split_pairs rest
unfolding split_pairs
split_pairs-and rest = refl

split_pairs-other : (c : ℕ) (s : Text) → c ≢ b'&' → split_pairs (c ∷ s) ≡ prepend c (split_pairs s)
unfolding split_pairs
split_pairs-other c s h = ground (arith, h)

-- A pair with another behind it, and the last one.
split_pairs-first :
    (s rest : Text) → s ≢ [] → Avoids b'&' s → split_pairs (s ++ b'&' ∷ rest) ≡ s ∷ split_pairs rest
split_pairs-first [] rest h k = absurd (h refl)
split_pairs-first (c ∷ []) rest h k =
    split_pairs-other c (b'&' ∷ rest) k.0 ∙ ap (prepend c) (split_pairs-and rest)
split_pairs-first (c ∷ d ∷ s) rest h k =
    split_pairs-other c ((d ∷ s) ++ b'&' ∷ rest) k.0
    ∙ ap (prepend c) (split_pairs-first (d ∷ s) rest (λ e. cc (e)) k.1)

split_pairs-last : (s : Text) → s ≢ [] → Avoids b'&' s → split_pairs s ≡ s ∷ []
unfolding split_pairs
split_pairs-last [] h k = absurd (h refl)
split_pairs-last (c ∷ []) h k = ground (arith, k)
split_pairs-last (c ∷ d ∷ s) h k =
    split_pairs-other c (d ∷ s) k.0 ∙ ap (prepend c) (split_pairs-last (d ∷ s) (λ e. cc (e)) k.1)

split_pairs-print :
    (p : Text × Text) (ps : Assoc Text)
    → IsParams (p ∷ ps)
    → split_pairs (print_pair p ++ print_more ps) ≡ map print_pair (p ∷ ps)
split_pairs-print p [] h =
    ap split_pairs (append_nil (print_pair p))
    ∙ split_pairs-last (print_pair p) (print_pair-some p) (Avoids-print_pair p h.0.0 h.0.1)
split_pairs-print p (q ∷ ps) h =
    split_pairs-first (print_pair p) (print_pair q ++ print_more ps) (print_pair-some p)
      (Avoids-print_pair p h.0.0 h.0.1)
    ∙ ap (◌∷◌ (print_pair p)) (split_pairs-print q ps h.1)

add_param-print_pair :
    (p : Text × Text) (table : Assoc Text)
    → All (λ c. c < 256) p.0
    → All (λ c. c < 256) p.1
    → add_param (print_pair p) table ≡ assign p.0 p.1 table
unfolding add_param
add_param-print_pair (k, v) table h h' =
    let cut =
      cut_at-first b'=' (percent_encode k) (percent_encode v)
        (Avoids-percent_encode b'=' k h (inr refl)) in
    rw (cut, url_decode-percent_encode k h, url_decode-percent_encode v h', add_param) refl

add_params-print :
    (ps table : Assoc Text) → IsParams ps → add_params (map print_pair ps) table ≡ table_of ps table
unfolding add_params
add_params-print [] table h = refl
add_params-print (p ∷ ps) table h =
    ap (add_params (map print_pair ps)) (add_param-print_pair p table h.0.0 h.0.1)
    ∙ add_params-print ps (assign p.0 p.1 table) h.1

cut_at-none : (c : ℕ) (s : Text) → Avoids c s → cut_at c s ≡ none
unfolding cut_at
cut_at-none c [] h = refl
cut_at-none c (a ∷ s) h = rw (cut_at-none c s h.1) (ground (arith, h))

split_path-print_target :
    (path : Text) (ps : Assoc Text) (req : HttpRequest)
    → Avoids b'?' path
    → IsParams ps
    → split_path (print_target path ps) req
      ≡ record req { path = path; query_params = table_of ps req.query_params }
unfolding split_path parse_query_string
split_path-print_target path [] req h k = rw (cut_at-none b'?' path h, split_path) refl
split_path-print_target path (p ∷ ps) req h k =
    let cut = cut_at-first b'?' path (print_pair p ++ print_more ps) h in
    let read = split_pairs-print p ps k in
    let table = add_params-print (p ∷ ps) req.query_params k in
    rw (cut, read, split_path) (ap (λ t. record req { path = path; query_params = t }) table)

-- A request that Feed gets in one piece: the method, the target and the version are words; the target is
-- a path without `?` and a query with percent-encoded names and values; no header has CR in it or a colon
-- in its name or blanks in front of its value; and the headers announce the length of the body, which is
-- below 2^64. Then Feed completes the request that has this method, path and version, the parameters of
-- the query, the headers and the body, the later of two parameters or headers with one name, and the bytes
-- behind it stay in the buffer.
pub feed-whole :
    (stoull : Text → Option ℕ) (method path version : Text) (params hs : Assoc Text)
    (body rest : Text)
    → Avoids b'?' path
    → IsParams params
    → IsRequest method (print_target path params) version hs
    → Announces stoull hs (length body)
    → length body < u64_mod
    → Delivers
        (record {
          method = method;
          path = path;
          version = version;
          headers = table_of hs [];
          body = body;
          query_params = table_of params [];
          path_params = [];
        })
        rest
        (feed stoull
          (print_request method (print_target path params) version hs (body ++ rest))
          new)
feed-whole stoull method path version params hs body rest no_mark bytes lines length_is word =
    let target = print_target path params in
    let req : HttpRequest = record no_request { method = method; version = version } in
    let split = split_path-print_target path params req no_mark bytes in
    let printed =
      feed-printed stoull method target version hs body rest lines
        (announced-Announces stoull hs (length body) length_is) word in
    subst
      (λ r.
        Delivers (record r { headers = table_of hs []; body = body }) rest
          (feed stoull (print_request method target version hs (body ++ rest)) new))
      split printed
