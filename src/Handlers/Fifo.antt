-- ===== src/Handlers/Fifo.antt =====
-- example/handlers/fifo_reader.c: answers one request with what a pipe holds. The pipe is a
-- parameter; the allocation of the buffer is taken to succeed.
use libm2handler.Base.{
  ◌-◌, ◌≡◌, refl, ap, ◌∙◌, [], ◌∷◌, ◌++◌, append-nil, arith, List, Bool, true, false, not,
  if◌then◌else◌, Option, none, some, ℤ, pos, length, take, replicate, Bytes, bytes_of, Outcome, ret,
  exits, faults, ◌>>=◌,
}
use libm2handler.Extern.{Bstring, Bstrlib, IsLawful, Scanner, IsScanner}
use libm2handler.Framing.Debug.{read_text, has_nul}
use libm2handler.Handler.Request.{Request, finalize}
use libm2handler.Handler.Reply.{Sent, reply_http, disconnect}
use libm2handler.Handler.Socket.{Zmq, recv}
use libm2handler.Handlers.SetUp.{target, printed_text, open_sockets, close_sockets}
use libm2handler.Handlers.Incoming.{Incoming, IsProper, on_wire, recv-on_wire}
use libm2handler.Handlers.Upper.{ok_headers, first_arg}

-- The errors of `mkfifo` that the code names.
pub data Errno : Type 0 where
  eacces eexist enametoolong enoent enospc enotdir erofs other : Errno

-- What `mkfifo` comes to, whether `fopen` succeeds, and what the pipe holds.
pub record Pipe : Type 0 where
  pub made : Option Errno
  pub opens : Bool
  pub content : Bytes

-- Whether the run goes on after `mkfifo`. The case EACCES falls through to EEXIST.
unfoldable pub fifo_made : Option Errno → Bool
fifo_made none = true
fifo_made (some eacces) = true
fifo_made (some eexist) = true
fifo_made (some enametoolong) = false
fifo_made (some enoent) = false
fifo_made (some enospc) = false
fifo_made (some enotdir) = false
fifo_made (some erofs) = false
fifo_made (some other) = false

-- The zeroed buffer after `fread` of at most 1024 bytes.
unfoldable pub fifo_buffer : Bytes → Bytes
fifo_buffer content = let got = take 1024 content in got ++ replicate (1024 - length got) 0

module _ (Z : Zmq) (B : Bstrlib) (scan : Scanner) (Value : Type 0) where
  -- From `mongrel2_recv` to `mongrel2_request_finalize`.
  unfoldable pub fifo_serve :
      Z.State → Z.Handle → Bstring → Bytes → ℤ → ℤ → Outcome (Sent × Z.State)
  unfolding fifo_buffer
  fifo_serve z pull headers content junk_header junk_body = do
    (received, z') ← recv Z B scan {J = Value} z pull junk_header junk_body
    read_request ← target received
    fifo_text ← read_text (fifo_buffer content)
    let request : Request Value = record read_request {
      body = B.bfromcstralloc (pos 1024) (some fifo_text);
    }
    let (r₁, sent₁) = reply_http B [] request headers request.body
    let (r₂, sent₂) = disconnect B (some sent₁) (some request)
    sent' ← target sent₂
    r₃ ← finalize (some request)
    ret (sent', z')

  unfoldable pub fifo_main :
      Option Bytes → Z.State → List Bytes → Pipe → ℤ → ℤ → Outcome (ℤ × Sent × Z.State)
  unfolding fifo_serve fifo_made
  fifo_main null_text z args pipe junk_header junk_body = do
    let sender = first_arg args
    shown ← printed_text null_text sender
    (ends, z₁) ←
        open_sockets Z B z (pos 1) (bytes_of "tcp://127.0.0.1:8999")
          (bytes_of "tcp://127.0.0.1:8998") sender
    let headers = B.bfromcstr (some ok_headers)
    if not (fifo_made pipe.made)
        then exits
        else (if not pipe.opens then exits else (do
          (sent, z₂) ← fifo_serve z₁ ends.pull headers pipe.content junk_header junk_body
          (status, z₃) ← close_sockets Z B z₂ ends
          ret (status, sent, z₃)))

read_text-no_nul : (s : Bytes) → has_nul s ≡ false → read_text s ≡ faults
unfolding read_text
read_text-no_nul [] h = refl
read_text-no_nul (c ∷ s) h = ground (arith, read_text-no_nul s)

module _ (Z : Zmq) (B : Bstrlib) (scan : Scanner) (Value : Type 0) (L : IsLawful B)
    (S : IsScanner scan) (socket : Z.Handle) (headers : Bytes) (z z' : Z.State) (m : Incoming)
    (arrived : Z.recvmsg z socket ≡ ret (on_wire m, z')) (proper : IsProper m)
    (junk_header junk_body : ℤ) where
  -- If the pipe gives 1024 bytes, none of them NUL, fifo_reader.c reads beyond the end of its
  -- buffer, which is undefined. The message UUID CONN_ID PATH HEADER_NETSTRING,BODY_NETSTRING,
  -- that arrived is shorter than 2^31 bytes, its UUID is a C string, its UUID and path hold no
  -- space, and its connection id is below 2^31. The string functions and `sscanf` behave as
  -- documented.
  pub fifo_serve_full :
      (content : Bytes)
      → has_nul (take 1024 content) ≡ false
      → length (take 1024 content) ≡ 1024
      → fifo_serve Z B scan Value z socket (some headers) content junk_header junk_body ≡ faults
  unfolding fifo_serve
  fifo_serve_full content clean full = rw (
    recv-on_wire Z socket B L scan S Value z z' m junk_header junk_body proper arrived,
    fifo_buffer-full,
    read_text-no_nul (take 1024 content) clean,
  )
    where
      fifo_buffer-full : fifo_buffer content ≡ take 1024 content
      fifo_buffer-full =
          unfold fifo_buffer in
          (let none_left : 1024 - length (take 1024 content) ≡ 0 = omega (arith, full) in
            ap (λ k. take 1024 content ++ replicate k 0) none_left ∙ append-nil (take 1024 content))
