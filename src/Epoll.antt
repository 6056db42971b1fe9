-- ===== src/Epoll.antt =====
-- epoll_test/server.cpp: the loop over the events of epoll_wait. What the kernel answers is a
-- parameter, which may look at all calls made before. A number that C takes for an int is its 32-bit
-- pattern; text is the list of its bytes.
pub mod Line
pub mod Rounds
use myprogram.Prelude.{
  ℕ, zero, suc, ◌+◌, ◌-◌, ◌^◌, Bool, true, false, Option, none, some, List, [], ◌∷◌, ◌++◌, leb,
  ◌==◌, if◌then◌else◌, Run, ok, fault, ◌>>=◌, length, drop,
}

-- A call of the system; `printed` is what `cout << line` writes.
pub data Call : Type 0 where
  accepted : ℕ → Call
  watched : ℕ → Call
  read : ℕ → Call
  closed : ℕ → Call
  printed : List ℕ → Call

-- `accept` gives a socket or a negative number; `read` gives bytes, none if it fails; `is_reset` is
-- whether errno is ECONNRESET then.
pub record Kernel : Type 0 where
  pub accept : List Call → ℕ
  pub read : List Call → ℕ → Option (List ℕ)
  pub is_reset : List Call → Bool

-- struct epoll_event: the socket, and whether EPOLLIN is set.
pub record Event : Type 0 where
  pub fd : ℕ
  pub epollin : Bool

-- The variables of main: `listenfd`, `line`, the calls made, the last one first, and whether the
-- program has not yet exited.
pub record Server : Type 0 where
  pub listenfd : ℕ
  pub line : List ℕ
  pub calls : List Call
  pub is_running : Bool

abbrev pub maxline : ℕ
maxline = 250

abbrev pub is_negative : ℕ → Bool
is_negative n = leb (2 ^ 31) n

unfoldable pub zeros : ℕ → List ℕ
zeros zero = []
zeros (suc n) = 0 ∷ zeros n

-- The variables in front of the loop: `line` is all 0, and the listening socket is watched.
unfoldable pub start : ℕ → Server
start listenfd = record {
  listenfd = listenfd;
  line = zeros maxline;
  calls = watched listenfd ∷ [];
  is_running = true;
}

-- main up to its loop: the answers of socket, of bind and of listen, -1 or not. The program exits if
-- one of them fails.
unfoldable pub set_up : ℕ → Bool → Bool → Option Server
set_up listenfd bound listening =
    if listenfd == 2 ^ 32 - 1
    then none
    else (if bound then (if listening then some (start listenfd) else none) else none)

-- A connection: accept, and epoll_ctl of what it gives. The program exits if it fails.
unfoldable pub on_listen : Kernel → Server → Server
on_listen k s =
    let connfd = k.accept s.calls in
    if is_negative connfd
    then record s { calls = accepted connfd ∷ s.calls; is_running = false }
    else record s { calls = watched connfd ∷ accepted connfd ∷ s.calls }

-- The bytes that `read` writes to the front of `line`.
unfoldable pub fill_line : List ℕ → List ℕ → Run (List ℕ)
fill_line line bytes =
    if leb (length bytes) (length line) then ok (bytes ++ drop (length bytes) line) else fault

-- `line[n] = '\n'`; `n` is none for -1.
unfoldable pub put_newline : List ℕ → Option ℕ → Run (List ℕ)
put_newline line none = fault
put_newline [] (some n) = fault
put_newline (c ∷ line) (some zero) = ok (10 ∷ line)
put_newline (c ∷ line) (some (suc n)) = do rest ← put_newline line (some n); ok (c ∷ rest)

-- What `cout << line` writes: the bytes in front of the first 0, which must be inside the array.
unfoldable pub line_text : List ℕ → Run (List ℕ)
line_text [] = fault
line_text (c ∷ cs) = if c == 0 then ok [] else do rest ← line_text cs; ok (c ∷ rest)

-- The last two statements of the branch.
unfoldable pub print_line : Server → List ℕ → Option ℕ → Run Server
print_line s line n = do
  line' ← put_newline line n
  text ← line_text line'
  ok (record s { line = line'; calls = printed text ∷ s.calls })

-- What `read` has given for the socket `fd`; a socket at its end or reset is closed.
unfoldable pub on_answer : Kernel → Server → ℕ → Option (List ℕ) → Run Server
on_answer k s fd none =
    print_line (if k.is_reset s.calls then record s { calls = closed fd ∷ s.calls } else s) s.line
      none
on_answer k s fd (some []) = print_line (record s { calls = closed fd ∷ s.calls }) s.line (some 0)
on_answer k s fd (some (c ∷ cs)) = do
  line ← fill_line s.line (c ∷ cs)
  print_line s line (some (length (c ∷ cs)))

unfoldable pub on_readable : Kernel → Server → ℕ → Run Server
on_readable k s fd =
    let answer = k.read s.calls fd in on_answer k (record s { calls = read fd ∷ s.calls }) fd answer

-- The body of the loop over the events of one epoll_wait.
unfoldable pub on_event : Kernel → Server → Event → Run Server
on_event k s e =
    if e.fd == s.listenfd
    then ok (on_listen k s)
    else (if e.epollin then (if is_negative e.fd then ok s else on_readable k s e.fd) else ok s)

unfoldable pub on_events : Kernel → Server → List Event → Run Server
on_events k s [] = ok s
on_events k s (e ∷ events) =
    let rest = (do s' ← on_event k s e; on_events k s' events) in
    if s.is_running then rest else ok s

-- The events of the first calls of epoll_wait.
unfoldable pub serve : Kernel → Server → List (List Event) → Run Server
serve k s [] = ok s
serve k s (events ∷ batches) = do s' ← on_events k s events; serve k s' batches
