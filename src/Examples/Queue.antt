-- ===== src/Examples/Queue.antt =====
-- A concrete ZeroMQ, at which one message waits for ever anew.
use libm2handler.Base.{
  ℕ, ◌+◌, ◌≤◌, ◌==◌, eq→==, ne→==, All, ◌++◌, if◌then◌else◌, ◌≡◌, ◌≢◌, refl, ap, [], ◌∷◌, List,
  Option, none, some, ℤ, pos, Bytes, Outcome, ret, aborts, faults, blocks, exits, arith, decimal,
}
use libm2handler.Handler.Socket.{Zmq, IsZmq}
use libm2handler.Handlers.Incoming.{Incoming, IsProper, on_wire}
use libm2handler.Handler.Parse.{message, wire}
use libm2handler.Handler.Netstring.{print_netstring}
use libm2handler.Extern.{c_string}

abbrev pub question : Incoming
question = record {
  uuid = b'0' ∷ [];
  id = 42;
  path = b'/' ∷ [];
  raw_headers = b'{' ∷ b'}' ∷ [];
  body = b'h' ∷ b'i' ∷ [];
}

pub question-IsProper : IsProper question
question-IsProper = record {
  clean_uuid = omega arith;
  uuid_text = unfold c_string in refl;
  small = omega arith;
  clean_path = omega arith;
  fits = unfold message wire print_netstring decimal in omega arith;
}

abbrev closed : ℕ → List ℕ → List ℕ
closed h [] = []
closed h (x ∷ xs) = let rest = closed h xs in if x == h then xs else x ∷ rest

closed-append :
    (h : ℕ) (newer older : List ℕ)
    → All (λ x. x ≢ h) newer
    → closed h (newer ++ (h ∷ older)) ≡ newer ++ older
closed-append h [] older a = rw (eq→== h h refl)
closed-append h (x ∷ newer) older a = rw (ne→== x h a.0, closed-append h newer older a.1)

-- A number above all that are in use.
abbrev fresh : List ℕ → ℕ
fresh [] = 0
fresh (x ∷ xs) = x + fresh xs + 1

below_fresh : (n : ℕ) (xs : List ℕ) → fresh xs ≤ n → All (λ x. x ≢ n) xs
below_fresh n [] h = tt
below_fresh n (x ∷ xs) h = (omega arith, below_fresh n xs (omega arith))

abbrev end_context : List ℕ → Outcome (ℤ × List ℕ)
end_context [] = ret (pos 0, [])
end_context (h ∷ hs) = blocks

-- A library whose state is the list of its open sockets, each a number.
abbrev pub queue : Zmq
queue = record {
  State = List ℕ;
  Context = ℤ;
  Handle = ℕ;
  pull_type = 7;
  pub_type = 1;
  identity_option = 5;
  rcvhwm_option = 24;
  init = λ z threads. (some threads, z);
  term = λ z c. end_context z;
  socket = λ z c kind. (some (fresh z), fresh z ∷ z);
  setsockopt = λ z h o b. (pos 0, z);
  connect = λ z h dest. (pos 0, z);
  close = λ z h. (pos 0, closed h z);
  poll = λ z h. (pos 1, z);
  recvmsg = λ z h. ret (on_wire question, z);
}

number_of : Option ℕ → ℕ
number_of none = 0
number_of (some h) = h

end_idle : (z : List ℕ) → z ≡ [] → (z' : List ℕ) × (end_context z ≡ ret (pos 0, z'))
end_idle [] e = ([], refl)
end_idle (h ∷ hs) e = cc

end_blocks : (z : List ℕ) → z ≢ [] → end_context z ≡ blocks
end_blocks [] e = absurd (e refl)
end_blocks (h ∷ hs) e = refl

socket_opens :
    (z z' : List ℕ) (h : ℕ)
    → ◌≡◌ {A = Option ℕ × List ℕ} (some (fresh z), fresh z ∷ z) (some h, z')
    → (z' ≡ h ∷ z) × (fresh z ≡ h)
unfolding number_of
socket_opens z z' h e =
    let same : fresh z ≡ h = λ i. number_of (e i).0 in
    let after : fresh z ∷ z ≡ z' = λ i. (e i).1 in (rw (← after, same), same)

state_after : List ℕ → Outcome (Bytes × List ℕ) → List ℕ
state_after z (ret (b, z')) = z'
state_after z aborts = z
state_after z faults = z
state_after z blocks = z
state_after z exits = z

question_leaves :
    (z z' : List ℕ) (b : Bytes)
    → ◌≡◌ {A = Outcome (Bytes × List ℕ)} (ret (on_wire question, z)) (ret (b, z'))
    → z ≡ z'
unfolding state_after
question_leaves z z' b e = ap (state_after z) e

pub queue-IsZmq : IsZmq queue
queue-IsZmq = record {
  opened = λ z. z;
  socket_some = λ z z' c kind h e. (socket_opens z z' h e).0;
  socket_fresh = λ z z' c kind h e. below_fresh h z (omega (arith, (socket_opens z z' h e).1));
  opened-init = λ z n. refl;
  opened-setsockopt = λ z h o b. refl;
  opened-connect = λ z h dest. refl;
  opened-poll = λ z h. refl;
  opened-recvmsg = λ z z' h b e. rw (← question_leaves z z' b e);
  opened-close = λ z h newer older e a. rw e (closed-append h newer older a);
  term_idle = λ z c e. end_idle z e;
  term_blocks = λ z c e. end_blocks z e;
}

pub opened-nil : queue-IsZmq.opened [] ≡ []
unfolding queue-IsZmq
opened-nil = refl
