-- ===== src/Connector/Websocket/Stream.antt =====
-- WSConn.Read of ws_connector.go against the stream of bytes that the messages of a websocket make up.
use mathlib.Core.List.{append_assoc}
use xgame.Common.{
  ℕ, ◌+◌, ◌≤◌, ◌<◌, ◌≡◌, ◌⊎◌, inl, inr, length-append, arith, refl, sym, ◌∙◌, ap, Option, none,
  some, List, [], ◌∷◌, ◌++◌, length,
}
use xgame.Go.Errors.{Error}
use xgame.Connector.Websocket.{
  Opened, opened, refused, ReadError, eof, failed, Websocket, WsConn, switched, read_done,
  read_from, read_first, read, read_open,
}

abbrev pub concat : List (List ℕ) → List ℕ
concat [] = []
concat (m ∷ ms) = m ++ concat ms

-- What is assumed of a websocket, of which there are the messages that the peer sends from now on and the bytes that
-- a reader has not given. NextReader, unless it fails, opens the next message, whole. A reader gives, with or without
-- an error, at most as many bytes as it is asked for, which are the next ones of its message, and the end of the
-- message only when it has given all of it; asked for some, it gives at least one byte, the end or an error. All of
-- them may fail at any time, and may give bytes with the end or with an error.
pub record IsWebsocket {C R : Type 0} (w : Websocket C R) : Type 0 where
  pub to_come : C → List (List ℕ)
  pub unread : R → C → List ℕ
  pub opens :
      (c c' : C) (t : ℕ) (r : R)
      → w.next_reader c ≡ (opened t r, c')
      → to_come c ≡ unread r c' ∷ to_come c'
  pub gives :
      (r : R) (n : ℕ) (c c' : C) (bytes : List ℕ) (e : Option ReadError)
      → w.read_message r n c ≡ ((bytes, e), c')
      → (length bytes ≤ n) × (unread r c ≡ bytes ++ unread r c') × (to_come c' ≡ to_come c)
  pub gives_some :
      (r : R) (n : ℕ) (c c' : C) (bytes : List ℕ)
      → 0 < n
      → w.read_message r n c ≡ ((bytes, none), c')
      → 0 < length bytes
  pub ends :
      (r : R) (n : ℕ) (c c' : C) (bytes : List ℕ)
      → w.read_message r n c ≡ ((bytes, some eof), c')
      → unread r c' ≡ []

module _ {C R : Type 0} (w : Websocket C R) (k : IsWebsocket w) where
  abbrev open_bytes : Option R → C → List ℕ
  open_bytes none conn = []
  open_bytes (some r) conn = k.unread r conn

  -- The bytes that are still to be read.
  abbrev pub pending : WsConn C R → List ℕ
  pending c = open_bytes c.reader c.conn ++ concat (k.to_come c.conn)

  -- No more than this many calls of Read return no error.
  abbrev pub reads_left : WsConn C R → ℕ
  reads_left c = length (pending c) + length (k.to_come c.conn)

  -- The error of NextReader or of a reader.
  abbrev pub IsFailure : Error → Type 0
  IsFailure e =
      ((c : C) × (c' : C) × (w.next_reader c ≡ (refused e, c')))
      ⊎ ((r : R) × (n : ℕ) × (bytes : List ℕ) × (c : C) × (c' : C) × (w.read_message r n c
            ≡ ((bytes, some (failed e)), c')))

  -- What that many calls of Read return, with what they leave: no error, and all between, or an error of the
  -- websocket.
  pub data IsRead (calls : ℕ) (c : WsConn C R) : (List ℕ × Option Error) × WsConn C R → Type 0 where
    goes_on :
        (bytes : List ℕ) (c' : WsConn C R)
        → pending c ≡ bytes ++ pending c'
        → calls + reads_left c' ≤ reads_left c
        → IsRead calls c ((bytes, none), c')
    stops :
        (bytes rest : List ℕ) (e : Error) (c' : WsConn C R)
        → pending c ≡ bytes ++ rest
        → IsFailure e
        → IsRead calls c ((bytes, some e), c')

  -- `c` has the same bytes to give as `c'`, and another message.
  switch-IsRead :
      (c c' : WsConn C R) (bytes : List ℕ) (x : Opened R × C)
      → pending c ≡ bytes ++ concat (k.to_come c'.conn)
      → k.to_come c'.conn ≡ k.to_come c.conn
      → w.next_reader c'.conn ≡ x
      → IsRead 1 c (switched w bytes x c')
  unfolding switched
  switch-IsRead c c' bytes (opened t r, conn) split same h =
      let more = k.opens c'.conn conn t r h in
      let all : pending c ≡ bytes ++ (k.unread r conn ++ concat (k.to_come conn)) =
        split ∙ ap (λ ms. bytes ++ concat ms) more in
      goes_on bytes (record c' { conn = conn; reader = some r }) all
        (omega (
          arith,
          ap length all,
          ap length same,
          ap length more,
          length-append bytes (k.unread r conn ++ concat (k.to_come conn)),
        ))
  switch-IsRead c c' bytes (refused e, conn) split same h =
      stops [] (pending c) e (record c' { conn = conn }) refl (inl (c'.conn, conn, h))

  -- What a reader has given is the front of what was pending.
  front :
      (r : R) (n : ℕ) (c : WsConn C R) (conn : C) (bytes : List ℕ) (e : Option ReadError)
      → c.reader ≡ some r
      → w.read_message r n c.conn ≡ ((bytes, e), conn)
      → pending c ≡ bytes ++ (k.unread r conn ++ concat (k.to_come conn))
  front r n c conn bytes e known h =
      let (_, split, same) = k.gives r n c.conn conn bytes e h in
      ap (λ o. open_bytes o c.conn ++ concat (k.to_come c.conn)) known
      ∙ ap (λ l. l ++ concat (k.to_come c.conn)) split
      ∙ append_assoc bytes (k.unread r conn) (concat (k.to_come c.conn))
      ∙ ap (λ l. bytes ++ (k.unread r conn ++ concat l)) (sym same)

  done-IsRead :
      (r : R) (n : ℕ) (c : WsConn C R) (x : (List ℕ × Option ReadError) × C)
      → 0 < n
      → c.reader ≡ some r
      → w.read_message r n c.conn ≡ x
      → IsRead 1 c (read_done w x c)
  unfolding read_done
  done-IsRead r n c ((bytes, none), conn) room known h =
      let (_, _, same) = k.gives r n c.conn conn bytes none h in
      let all : pending c ≡ bytes ++ (open_bytes c.reader conn ++ concat (k.to_come conn)) =
        front r n c conn bytes none known h
        ∙ ap (λ o. bytes ++ (open_bytes o conn ++ concat (k.to_come conn))) (sym known) in
      goes_on bytes (record c { conn = conn }) all
        (omega (
          arith,
          ap length all,
          ap length same,
          k.gives_some r n c.conn conn bytes room h,
          length-append bytes (open_bytes c.reader conn ++ concat (k.to_come conn)),
        ))
  done-IsRead r n c ((bytes, some (failed e)), conn) room known h =
      stops bytes (k.unread r conn ++ concat (k.to_come conn)) e (record c { conn = conn })
        (front r n c conn bytes (some (failed e)) known h) (inr (r, n, bytes, c.conn, conn, h))
  done-IsRead r n c ((bytes, some eof), conn) room known h =
      let (_, _, same) = k.gives r n c.conn conn bytes (some eof) h in
      switch-IsRead c (record c { conn = conn }) bytes (w.next_reader conn)
        (front r n c conn bytes (some eof) known h
          ∙ ap (λ l. bytes ++ (l ++ concat (k.to_come conn))) (k.ends r n c.conn conn bytes h))
        same refl

  from-IsRead :
      (r : R) (n : ℕ) (c : WsConn C R) → 0 < n → c.reader ≡ some r → IsRead 1 c (read_from w r n c)
  unfolding read_from
  from-IsRead r n c room known = done-IsRead r n c (w.read_message r n c.conn) room known refl

  -- A state that has the same bytes to give, and no more messages to come.
  earlier :
      {c c' : WsConn C R} {out : (List ℕ × Option Error) × WsConn C R}
      → pending c ≡ pending c'
      → reads_left c' ≤ reads_left c
      → IsRead 1 c' out
      → IsRead 1 c out
  earlier same fewer (goes_on bytes c'' split less) =
      goes_on bytes c'' (same ∙ split) (omega (arith, fewer, less))
  earlier same fewer (stops bytes rest e c'' split failure) =
      stops bytes rest e c'' (same ∙ split) failure

  first-IsRead :
      (n : ℕ) (c : WsConn C R) (x : Opened R × C)
      → 0 < n
      → c.reader ≡ none
      → w.next_reader c.conn ≡ x
      → IsRead 1 c (read_first w n x c)
  unfolding read_first
  first-IsRead n c (opened t r, conn) room unopened h =
      let c' : WsConn C R = record { conn = conn; typ = t; reader = some r } in
      let more = k.opens c.conn conn t r h in
      let same : pending c ≡ pending c' =
        ap (λ o. open_bytes o c.conn ++ concat (k.to_come c.conn)) unopened ∙ ap concat more in
      earlier same (omega (arith, ap length same, ap length more)) (from-IsRead r n c' room refl)
  first-IsRead n c (refused e, conn) room unopened h =
      stops [] (pending c) e (record c { conn = conn }) refl (inl (c.conn, conn, h))

  open-IsRead :
      (o : Option R) (n : ℕ) (c : WsConn C R)
      → 0 < n
      → c.reader ≡ o
      → IsRead 1 c (read_open w o n c)
  unfolding read_open
  open-IsRead none n c room unopened = first-IsRead n c (w.next_reader c.conn) room unopened refl
  open-IsRead (some r) n c room known = from-IsRead r n c room known

  -- One call of Read.
  pub read-IsRead : (n : ℕ) (c : WsConn C R) → 0 < n → IsRead 1 c (read w n c)
  unfolding read
  read-IsRead n c room = open-IsRead c.reader n c room refl
