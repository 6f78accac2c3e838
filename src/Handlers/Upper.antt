-- ===== src/Handlers/Upper.antt =====
-- example/handlers/body_toupper.c and example/handlers/daemon_to_upper.c. `to_upper` is what
-- `btoupper` of bstrlib does to the bytes of a string. The loop has no end: a run of it is cut off
-- after some rounds, one for each pair of what the two uninitialised lengths of the parser hold.
use libm2handler.Base.{
  ◌≡◌, ap, [], ◌∷◌, ◌++◌, append-nil, append_assoc, map, List, Option, none, some, ℤ, pos, Bytes,
  bytes_of, decimal, Outcome, ret, ◌>>=◌,
}
use libm2handler.Extern.{Bstring, Bstrlib, IsLawful, Scanner, IsScanner}
use libm2handler.Handler.Request.{Request, finalize}
use libm2handler.Handler.Reply.{
  Sent, reply_http, disconnect, separator, print_response, reply_http_lem, disconnect_lem,
}
use libm2handler.Handler.Socket.{Zmq, recv}
use libm2handler.Handlers.SetUp.{target, printed_text, open_sockets}
use libm2handler.Handlers.Incoming.{
  Incoming, IsProper, on_wire, request_of, request_of-Addressed, Arrive, recv-on_wire,
}

abbrev pub upper_body : (Bytes → Bytes) → Bstring → Bstring
upper_body to_upper none = none
upper_body to_upper (some body) = some (to_upper body)

-- The headers of the response.
abbrev pub ok_headers : Bytes
ok_headers =
    bytes_of
      "HTTP/1.1 200 OK\r\nDate: Fri, 07 Jan 2011 01:15:42 GMT\r\nStatus: 200 OK\r\nConnection: close"

-- `args[1]`, if it is there.
abbrev pub first_arg : List Bytes → Option Bytes
first_arg [] = none
first_arg (a ∷ args) = some a

abbrev pub Rounds : Type 0
Rounds = List (ℤ × ℤ)

module _ (Z : Zmq) (B : Bstrlib) (scan : Scanner) (to_upper : Bytes → Bytes) (Value : Type 0) where
  unfoldable pub toupper_round :
      Z.State → Z.Handle → Sent → Bstring → ℤ → ℤ → Outcome (Sent × Z.State)
  toupper_round z pull_socket sent headers junk_header junk_body = do
    (received, z') ← recv Z B scan {J = Value} z pull_socket junk_header junk_body
    read_request ← target received
    let request : Request Value = record read_request {
      body = upper_body to_upper read_request.body;
    }
    let (r₁, sent₁) = reply_http B sent request headers request.body
    let (r₂, sent₂) = disconnect B (some sent₁) (some request)
    sent' ← target sent₂
    r₃ ← finalize (some request)
    ret (sent', z')

  unfoldable pub toupper_loop :
      Z.State → Z.Handle → Sent → Bstring → Rounds → Outcome (Sent × Z.State)
  unfolding toupper_round
  toupper_loop z pull_socket sent headers [] = ret (sent, z)
  toupper_loop z pull_socket sent headers ((junk_header, junk_body) ∷ rounds) = do
    (sent', z') ← toupper_round z pull_socket sent headers junk_header junk_body
    toupper_loop z' pull_socket sent' headers rounds

  unfoldable pub toupper_main :
      Option Bytes → Z.State → List Bytes → Rounds → Outcome (Sent × Z.State)
  unfolding toupper_loop
  toupper_main null_text z args rounds = do
    let sender = first_arg args
    shown ← printed_text null_text sender
    (ends, z₁) ←
        open_sockets Z B z (pos 1) (bytes_of "tcp://127.0.0.1:9999")
          (bytes_of "tcp://127.0.0.1:9998") sender
    let headers = B.bfromcstr (some ok_headers)
    toupper_loop z₁ ends.pull [] headers rounds

  -- The daemon's `main` is the same code; it does not detach from its terminal.
  unfoldable pub daemon_main :
      Option Bytes → Z.State → List Bytes → Rounds → Outcome (Sent × Z.State)
  unfolding toupper_main
  daemon_main = toupper_main

  -- The two responses to a message.
  abbrev pub upper_responses : Bytes → Incoming → Sent
  upper_responses headers m =
      print_response m.uuid (decimal m.id) ((headers ++ separator) ++ to_upper m.body)
      ∷ print_response m.uuid (decimal m.id) []
      ∷ []

  abbrev pub all_responses : Bytes → List Incoming → Sent
  all_responses headers [] = []
  all_responses headers (m ∷ ms) = upper_responses headers m ++ all_responses headers ms

  module _ (L : IsLawful B) (S : IsScanner scan) (socket : Z.Handle) (headers : Bytes) where
    -- One round answers the message that arrives, if it is as Mongrel2 writes them.
    pub toupper_round_lem :
        (z z' : Z.State) (m : Incoming) (junk_header junk_body : ℤ) (sent : Sent)
        → Z.recvmsg z socket ≡ ret (on_wire m, z')
        → IsProper m
        → toupper_round z socket sent (some headers) junk_header junk_body
          ≡ ret (sent ++ upper_responses headers m, z')
    unfolding toupper_round finalize
    toupper_round_lem z z' m junk_header junk_body sent arrived proper =
        let first : Bytes =
          print_response m.uuid (decimal m.id) ((headers ++ separator) ++ to_upper m.body) in
        let upper : Incoming = record m { body = to_upper m.body } in
        let client = request_of-Addressed {Value = Value} upper proper.uuid_text in
        rw (
          recv-on_wire Z socket B L scan S Value z z' m junk_header junk_body proper arrived,
          reply_http_lem B L (request_of upper) m.uuid m.id client sent headers (to_upper m.body),
          disconnect_lem B L (request_of upper) m.uuid m.id client (sent ++ (first ∷ [])),
          append_assoc sent (first ∷ []) (print_response m.uuid (decimal m.id) [] ∷ []),
        )

    -- When messages UUID CONN_ID PATH HEADER_NETSTRING,BODY_NETSTRING, arrive one after the
    -- other, the loop of the upper-casing handler sends two responses to the client of each, in
    -- their order: the headers, an empty line and the upper-cased body, and then the empty
    -- payload that closes the connection. Each message is shorter than 2^31 bytes, its UUID is a
    -- C string, its UUID and path hold no space, and its connection id is below 2^31. The string
    -- functions and `sscanf` behave as documented.
    pub toupper_loop_lem :
        (z z' : Z.State) (rounds : List (Incoming × (ℤ × ℤ))) (sent : Sent)
        → Arrive Z socket z (map (λ r. r.0) rounds) z'
        → toupper_loop z socket sent (some headers) (map (λ r. r.1) rounds)
          ≡ ret (sent ++ all_responses headers (map (λ r. r.0) rounds), z')
    unfolding toupper_loop Arrive
    toupper_loop_lem z z' [] sent arrived = rw (append-nil sent, arrived)
    toupper_loop_lem z z' ((m, (junk_header, junk_body)) ∷ rounds) sent
          (z₁, arrived, (proper, later)) =
        rw
          (
            toupper_round_lem z z₁ m junk_header junk_body sent arrived proper,
            toupper_loop_lem z₁ z' rounds (sent ++ upper_responses headers m) later,
          )
          (ap (λ s. ret (s, z'))
            (append_assoc sent (upper_responses headers m)
              (all_responses headers (map (λ r. r.0) rounds))))
