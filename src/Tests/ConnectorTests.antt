-- ===== src/Tests/ConnectorTests.antt =====
-- A run of framework/pkg/connector/ws_connector.go over a websocket of three messages, one of them empty.
use xgame.Common.{
  ℕ, suc, zero, ◌≤◌, ◌<◌, ◌≡◌, ◌∙◌, refl, sym, ap, subst, Option, none, some, List, [], ◌∷◌, ◌++◌,
  take, drop, length, arith, take-append-drop,
}
use xgame.Go.Errors.{new}
use xgame.Connector.Websocket.{
  Opened, opened, refused, ReadError, eof, Websocket, WsConn, new_ws_conn, read, switched,
  read_done, read_from, read_first, write,
}
use xgame.Connector.Websocket.Stream.{IsWebsocket, IsRead}
use xgame.Connector.Websocket.Whole.{read_all, Positive, read_all-pending}

-- The unread bytes of the open message and the messages behind it.
abbrev Conn : Type 0
Conn = List ℕ × List (List ℕ)

abbrev next_message : List (List ℕ) → Opened (Unit {0}) × Conn
next_message [] = (refused (new "close"), ([], []))
next_message (m ∷ ms) = (opened 2 tt, (m, ms))

-- The end of a message comes with its last bytes.
abbrev end_of : List ℕ → Option ReadError
end_of [] = some eof
end_of (x ∷ xs) = none

abbrev some_of : List ℕ → ℕ → List (List ℕ) → (List ℕ × Option ReadError) × Conn
some_of open_message n ms =
    ((take n open_message, end_of (drop n open_message)), (drop n open_message, ms))

abbrev websocket : Websocket Conn (Unit {0})
websocket = record {
  next_reader = λ c. next_message c.1;
  read_message = λ r n c. some_of c.0 n c.1;
  write_message = λ t b c. (none, c);
}

next_given :
    (ms : List (List ℕ)) (c' : Conn) (t : ℕ) (r : Unit {0})
    → next_message ms ≡ (opened t r, c')
    → ms ≡ c'.0 ∷ c'.1
next_given [] c' t r h = cc
next_given (m ∷ ms) c' t r h = ap (λ x. x.1.0 ∷ x.1.1) h

at_most : (n : ℕ) (xs : List ℕ) → length (take n xs) ≤ n
at_most zero xs = omega arith
at_most (suc n) [] = omega arith
at_most (suc n) (x ∷ xs) = omega (arith, at_most n xs)

some_given :
    (n : ℕ) (open_message : List ℕ) (ms : List (List ℕ)) (c' : Conn) (bytes : List ℕ)
    → 0 < n
    → some_of open_message n ms ≡ ((bytes, none), c')
    → 0 < length bytes
some_given zero xs ms c' bytes room h = absurd (omega arith)
some_given (suc n) [] ms c' bytes room h = absurd (cc (ap (λ x. x.0.1) h))
some_given (suc n) (x ∷ xs) ms c' bytes room h = omega (arith, ap (λ y. length y.0.0) h)

over : (xs : List ℕ) → end_of xs ≡ some eof → xs ≡ []
over [] h = refl
over (x ∷ xs) h = cc

websocket-IsWebsocket : IsWebsocket websocket
websocket-IsWebsocket = record {
  to_come = λ c. c.1;
  unread = λ r c. c.0;
  opens = λ c c' t r h. next_given c.1 c' t r h;
  gives = λ r n c c' bytes e h. (
    subst (λ xs. length xs ≤ n) (ap (λ x. x.0.0) h) (at_most n c.0),
    sym (take-append-drop n c.0) ∙ ap (λ x. x.0.0 ++ x.1.0) h,
    sym (ap (λ x. x.1.1) h),
  );
  gives_some = λ r n c c' bytes room h. some_given n c.0 c.1 c' bytes room h;
  ends = λ r n c c' bytes h. sym (ap (λ x. x.1.0) h) ∙ over (drop n c.0) (ap (λ x. x.0.1) h);
}

abbrev accepted : WsConn Conn (Unit {0})
accepted = new_ws_conn ([], (1 ∷ 2 ∷ 3 ∷ []) ∷ [] ∷ (4 ∷ []) ∷ [])

abbrev sizes : List ℕ
sizes = 2 ∷ 2 ∷ 2 ∷ 2 ∷ 2 ∷ 2 ∷ 2 ∷ 2 ∷ []

sizes-Positive : Positive sizes
sizes-Positive =
    let two : 0 < 2 = omega arith in (two, (two, (two, (two, (two, (two, (two, (two, tt))))))))

-- The 4 comes with the end of the last message; Read drops it, as NextReader fails.
all_read : (read_all websocket sizes accepted).0.0 ≡ 1 ∷ 2 ∷ 3 ∷ []
unfolding read_all read read_from read_first read_done switched
all_read = refl

all_written : (write websocket (1 ∷ 2 ∷ []) accepted).0 ≡ (2, none)
unfolding write
all_written = refl

read_all-pending_example :
    IsRead websocket websocket-IsWebsocket
      (length sizes)
      accepted
      (read_all websocket sizes accepted)
read_all-pending_example =
    read_all-pending websocket websocket-IsWebsocket sizes accepted sizes-Positive
