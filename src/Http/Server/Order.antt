-- ===== src/Http/Server/Order.antt =====
-- network/TcpServer.cpp: the bytes that go out on a connection that stays open.
use distributed_key_value_st.Base.{
  ℕ, suc, ◌≡◌, refl, sym, ap, subst, ◌∙◌, ◌++◌, Bool, true, false, not, ◌&&◌, Option, some, List,
  [], ◌∷◌, arith, if◌then◌else◌, min, take, drop, length, Text, is_empty, take-append-drop,
  append_assoc, append_nil, Bool-cases, Option-cases, inl, inr,
}
use mathlib.Core.Path.{◌≡⟨◌⟩◌, ◌∎}
use distributed_key_value_st.Http.Request.{HttpRequest, is_keep_alive}
use distributed_key_value_st.Http.Response.{serialise}
use distributed_key_value_st.Http.Parser.{
  HttpParser, ParseResult, Parsed, parsed, thrown, stuck, feed, take_request,
}
use distributed_key_value_st.Http.Server.{
  TcpConnection, Handler, Received, bytes, end_of_stream, not_yet, broken, Sent, took, full, failed,
  queue_write, handle_write, answer_request, on_parsed, handle_read, Event, Handled, remains,
  closed, terminated, write_or_close, sent_before, go_on, io_event, io_events,
}

-- The bytes that HandleWrite sends and those that are left are those that were there, in their order.
pub handle_write_lem :
    (results : List Sent) (c : TcpConnection)
    → let (sent, d) = handle_write results c in
      (sent ++ d.write_buf ≡ c.write_buf) × (d.parser ≡ c.parser)
unfolding handle_write
handle_write_lem [] c = (refl, refl)
handle_write_lem (took n ∷ results) c =
    let k = min (suc n) (length c.write_buf) in
    let (order, same) = handle_write_lem results (record c { write_buf = drop k c.write_buf }) in
    elim (Bool-cases (is_empty c.write_buf)) [
      | inl empty ↦ rw (empty, handle_write) (refl, refl)
      | inr more ↦
          rw (more, handle_write)
            (
              append_assoc (take k c.write_buf) _ _
                  ∙ ap (λ b. take k c.write_buf ++ b) order
                  ∙ take-append-drop k c.write_buf,
              same,
            )
    ]
handle_write_lem (full ∷ results) c = (refl, refl)
handle_write_lem (failed ∷ results) c = elim (Bool-cases (is_empty c.write_buf)) [
  | inl empty ↦ rw (empty, handle_write) (refl, refl)
  | inr more ↦ rw (more, handle_write) (refl, refl)
]

sent_before-remains :
    (more : Text) (r : Handled) (d : TcpConnection) (sent : Text)
    → sent_before more r ≡ remains sent d
    → (rest : Text) × (r ≡ remains rest d) × (sent ≡ more ++ rest)
unfolding sent_before
sent_before-remains more (remains rest d') d sent h = (rest, cc (h), cc (h))
sent_before-remains more (closed rest) d sent h = absurd (cc (h))
sent_before-remains more terminated d sent h = absurd (cc (h))

go_on-remains :
    (next : TcpConnection → Handled) (r : Handled) (d : TcpConnection) (sent : Text)
    → go_on next r ≡ remains sent d
    → (more : Text) × (m : TcpConnection) × (rest : Text) × (r ≡ remains more m)
      × (next m ≡ remains rest d)
      × (sent ≡ more ++ rest)
unfolding go_on
go_on-remains next (remains more m) d sent h =
    let (rest, after, whole) = sent_before-remains more (next m) d sent h in
    (more, m, rest, refl, after, whole)
go_on-remains next (closed more) d sent h = absurd (cc (h))
go_on-remains next terminated d sent h = absurd (cc (h))

in_order :
    (sent more rest before between after xs ys : Text)
    → sent ≡ more ++ rest
    → more ++ between ≡ before ++ xs
    → rest ++ after ≡ between ++ ys
    → sent ++ after ≡ before ++ (xs ++ ys)
in_order sent more rest before between after xs ys whole first second =
    sent ++ after
    ≡⟨ ap (λ b. b ++ after) whole ∙ append_assoc more rest after ⟩ more ++ (rest ++ after)
    ≡⟨ ap (λ b. more ++ b) second ∙ sym (append_assoc more between ys) ⟩ (more ++ between) ++ ys
    ≡⟨ ap (λ b. b ++ ys) first ∙ append_assoc before xs ys ⟩ before ++ (xs ++ ys) ∎

module _ (stoull : Text → Option ℕ) where
  -- The requests that Feed completes, one for each call at most, with the call of handler_ made for it,
  -- and the parser behind them.
  unfoldable pub completed :
      Parsed → Handler → HttpParser → List (HttpRequest × Handler) × HttpParser
  unfolding take_request
  completed (parsed ParseResult.complete q) handler p =
      let (req, r) = take_request q in ((req, handler) ∷ [], r)
  completed (parsed ParseResult.incomplete q) handler p = ([], q)
  completed (parsed ParseResult.error q) handler p = ([], q)
  completed thrown handler p = ([], p)
  completed stuck handler p = ([], p)

  unfoldable pub requests_in :
      List Received → HttpParser → List (HttpRequest × Handler) × HttpParser
  unfolding completed
  requests_in [] p = ([], p)
  requests_in (bytes s handler ∷ results) p =
      let (reqs, q) = completed (feed stoull s p) handler p in
      let (more, r) = requests_in results q in (reqs ++ more, r)
  requests_in (end_of_stream ∷ results) p = ([], p)
  requests_in (not_yet ∷ results) p = ([], p)
  requests_in (broken ∷ results) p = ([], p)

  unfoldable pub requests_of : List Event → HttpParser → List (HttpRequest × Handler) × HttpParser
  unfolding requests_in
  requests_of [] p = ([], p)
  requests_of (e ∷ es) p =
      let (reqs, q) = if e.readable then requests_in e.received p else ([], p) in
      let (more, r) = requests_of es q in (reqs ++ more, r)

module _ (show : ℕ → Text) where
  -- The texts of the responses, with the connection kept.
  unfoldable pub responses : List (HttpRequest × Handler) → Text
  responses [] = []
  responses ((req, handler) ∷ reqs) = serialise show true (handler req).1 ++ responses reqs

  responses-append :
      (xs ys : List (HttpRequest × Handler)) → responses (xs ++ ys) ≡ responses xs ++ responses ys
  unfolding responses
  responses-append [] ys = refl
  responses-append ((req, handler) ∷ xs) ys =
      ap (λ b. serialise show true (handler req).1 ++ b) (responses-append xs ys)
      ∙ sym (append_assoc (serialise show true (handler req).1) (responses xs) (responses ys))

-- `d` is `c` behind these requests: their responses are in the write buffer.
record Follows (show : ℕ → Text) (c d : TcpConnection) (reqs : List (HttpRequest × Handler))
    (p : HttpParser) : Type 0 where
  open_before : c.marked_close ≡ false
  queued : d.write_buf ≡ c.write_buf ++ responses show reqs
  parser_at : d.parser ≡ p

module _ (stoull : Text → Option ℕ) (show : ℕ → Text) where
  answer_request-Follows :
      (handler : Handler) (p : HttpParser) (c : TcpConnection)
      → (answer_request show handler p c).marked_close ≡ false
      → let (req, r) = take_request p in
        Follows show c (answer_request show handler p c) ((req, handler) ∷ []) r
  unfolding answer_request queue_write responses
  answer_request-Follows handler p c h =
      let (req, r) = take_request p in
      let kept : (is_keep_alive (handler req).0 && not c.marked_close) ≡ true = ground arith in
      let unmarked : c.marked_close ≡ false = ground arith in
      record {
        open_before = unmarked;
        queued = rw (kept, answer_request) (ap (λ b. c.write_buf ++ b) (sym (append_nil _)));
        parser_at = rw (kept, answer_request) refl;
      }

  Follows-refl : (c : TcpConnection) → c.marked_close ≡ false → Follows show c c [] c.parser
  unfolding responses
  Follows-refl c h = record {
    open_before = h;
    queued = sym (append_nil c.write_buf);
    parser_at = refl;
  }

  Follows-same :
      (c d : TcpConnection) → c ≡ d → d.marked_close ≡ false → Follows show c d [] c.parser
  Follows-same c d same =
      subst (λ x. x.marked_close ≡ false → Follows show c x [] c.parser) same (Follows-refl c)

  Follows-trans :
      (c d d' : TcpConnection) (xs ys : List (HttpRequest × Handler)) (p q : HttpParser)
      → Follows show c d xs p
      → Follows show d d' ys q
      → Follows show c d' (xs ++ ys) q
  Follows-trans c d d' xs ys p q h k = record {
    open_before = h.open_before;
    queued =
        k.queued
        ∙ ap (λ b. b ++ responses show ys) h.queued
        ∙ append_assoc c.write_buf (responses show xs) (responses show ys)
        ∙ ap (λ b. c.write_buf ++ b) (sym (responses-append show xs ys));
    parser_at = k.parser_at;
  }

  on_parsed-Follows :
      (handler : Handler) (r : Parsed) (c d : TcpConnection)
      → on_parsed show handler r c ≡ some d
      → d.marked_close ≡ false
      → let (reqs, p) = completed stoull r handler c.parser in Follows show c d reqs p
  unfolding on_parsed completed responses
  on_parsed-Follows handler (parsed ParseResult.complete q) c d h open' =
      let same : answer_request show handler q c ≡ d = cc (h) in
      let (req, r) = take_request q in
      subst (λ x. x.marked_close ≡ false → Follows show c x ((req, handler) ∷ []) r) same
        (answer_request-Follows handler q c) open'
  on_parsed-Follows handler (parsed ParseResult.incomplete q) c d h open' = record {
    open_before = ground arith;
    queued = ground (arith, append_nil c.write_buf);
    parser_at = ground arith;
  }
  on_parsed-Follows handler (parsed ParseResult.error q) c d h open' = record {
    open_before = ground arith;
    queued = ground (arith, append_nil c.write_buf);
    parser_at = ground arith;
  }
  on_parsed-Follows handler thrown c d h open' = absurd (ground arith)
  on_parsed-Follows handler stuck c d h open' = absurd (ground arith)

  handle_read-Follows :
      (results : List Received) (c d : TcpConnection)
      → handle_read stoull show results c ≡ some d
      → d.marked_close ≡ false
      → let (reqs, p) = requests_in stoull results c.parser in Follows show c d reqs p
  unfolding handle_read requests_in
  handle_read-Follows [] c d h open' = Follows-same c d (cc (h)) open'
  handle_read-Follows (bytes s handler ∷ results) c d h open' =
      elim (Option-cases (on_parsed show handler (feed stoull s c.parser) c)) [
        | inl over ↦ absurd (ground (arith, over))
        | inr (m, first) ↦
            let rest : handle_read stoull show results m ≡ some d = rw (first, handle_read) at h in
            let behind = handle_read-Follows results m d rest open' in
            let before =
              on_parsed-Follows handler (feed stoull s c.parser) c m first behind.open_before in
            let (xs, q) = completed stoull (feed stoull s c.parser) handler c.parser in
            let behind_q =
              subst
                (λ p.
                  Follows show m d (requests_in stoull results p).0
                    (requests_in stoull results p).1)
                before.parser_at behind in
            let (ys, r) = requests_in stoull results q in
            Follows-trans c m d xs ys q r before behind_q
      ]
  handle_read-Follows (end_of_stream ∷ results) c d h open' = absurd (ground arith)
  handle_read-Follows (not_yet ∷ results) c d h open' = Follows-same c d (cc (h)) open'
  handle_read-Follows (broken ∷ results) c d h open' = absurd (ground arith)

  write_or_close_lem :
      (e : Event) (reported should_close : Bool) (c d : TcpConnection) (sent : Text)
      → write_or_close e reported should_close c ≡ remains sent d
      → (should_close ≡ false) × (sent ++ d.write_buf ≡ c.write_buf) × (d.parser ≡ c.parser)
  unfolding write_or_close
  write_or_close_lem e reported should_close c d sent h = ground (arith, handle_write_lem e.sends c)

  io_event-read :
      (e : Event) (c d : TcpConnection) (sent : Text)
      → io_event stoull show e c ≡ remains sent d
      → let (reqs, p) =
          if e.readable then requests_in stoull e.received c.parser else ([], c.parser) in
        (sent ++ d.write_buf ≡ c.write_buf ++ responses show reqs) × (d.parser ≡ p)
  unfolding io_event responses
  io_event-read e c d sent h = elim (Bool-cases e.hung_up) [
    | inl over ↦ absurd (ground (arith, over))
    | inr alive ↦ elim (Bool-cases e.readable) [
      | inl reads ↦ elim (Option-cases (handle_read stoull show e.received c)) [
        | inl thrown' ↦ absurd (ground (arith, alive, reads, thrown'))
        | inr (m, read) ↦
            let rest : write_or_close e (e.writable && c.polls_write) m.marked_close m
                ≡ remains sent d =
              rw (alive, reads, read, io_event) at h in
            let (open', order, same) =
              write_or_close_lem e (e.writable && c.polls_write) m.marked_close m d sent rest in
            let follows = handle_read-Follows e.received c m read open' in
            rw reads (order ∙ follows.queued, same ∙ follows.parser_at)
      ]
      | inr idle ↦
          let rest : write_or_close e (e.writable && c.polls_write) false c ≡ remains sent d =
            rw (alive, idle, io_event) at h in
          let (_, order, same) =
            write_or_close_lem e (e.writable && c.polls_write) false c d sent rest in
          rw idle (order ∙ sym (append_nil c.write_buf), same)
    ]
  ]

  -- As long as a connection is open, whatever epoll, recv and send give: the bytes sent and those in
  -- the write buffer are what was in the buffer, and behind it the responses to the requests that Feed
  -- has completed, each once, from the call of handler_ made for it, and in the order of the requests.
  pub io_events-responses :
      (es : List Event) (c d : TcpConnection) (sent : Text)
      → io_events stoull show es c ≡ remains sent d
      → let (reqs, p) = requests_of stoull es c.parser in
        (sent ++ d.write_buf ≡ c.write_buf ++ responses show reqs) × (d.parser ≡ p)
  unfolding io_events requests_of responses
  io_events-responses [] c d sent h = ground (arith, append_nil c.write_buf)
  io_events-responses (e ∷ es) c d sent h =
      let (more, m, rest, first, others, whole) =
        go_on-remains (io_events stoull show es) (io_event stoull show e c) d sent h in
      let (xs, q) = if e.readable then requests_in stoull e.received c.parser else ([], c.parser) in
      let (order, at) = io_event-read e c m more first in
      let (order', at') = io_events-responses es m d rest others in
      let text = λ (p : HttpParser). responses show (requests_of stoull es p).0 in
      let behind : rest ++ d.write_buf ≡ m.write_buf ++ text q =
        order' ∙ ap (λ p. m.write_buf ++ text p) at in
      (
        in_order sent more rest c.write_buf m.write_buf d.write_buf (responses show xs) (text q)
              whole order behind
            ∙ ap (λ b. c.write_buf ++ b)
                (sym (responses-append show xs (requests_of stoull es q).0)),
        at' ∙ ap (λ p. (requests_of stoull es p).1) at,
      )
