-- ===== src/Connector/Websocket.antt =====
-- framework/pkg/connector/ws_connector.go: WSConn, which makes one stream of the messages of a websocket. The
-- connection of gorilla/websocket is a parameter.
pub mod Stream
pub mod Whole
use xgame.Common.{ℕ, Option, none, some, List, [], ◌∷◌, ◌++◌, length}
use xgame.Go.{Result, ok, err, panic, Exec, ◌>>◌}
use xgame.Go.Errors.{Error}

-- What NextReader returns: the type of the next message and its reader, or an error.
pub data Opened (R : Type 0) : Type 0 where
  opened : ℕ → R → Opened R
  refused : Error → Opened R

pub data ReadError : Type 0 where
  eof : ReadError
  failed : Error → ReadError

-- The methods of *websocket.Conn that Read and Write call. `R` are the readers of messages, which give at most as many
-- bytes as they are asked for.
pub record Websocket (C R : Type 0) : Type 0 where
  pub next_reader : C → Opened R × C
  pub read_message : R → ℕ → C → (List ℕ × Option ReadError) × C
  pub write_message : ℕ → List ℕ → C → Option Error × C

-- websocket.BinaryMessage
abbrev pub binary_message : ℕ
binary_message = 2

pub record WsConn (C R : Type 0) : Type 0 where
  pub conn : C
  pub typ : ℕ
  pub reader : Option R

module _ {C R : Type 0} where
  -- NewWSConn
  abbrev pub new_ws_conn : C → WsConn C R
  new_ws_conn conn = record { conn = conn; typ = 0; reader = none }

module _ {C R : Type 0} (w : Websocket C R) where
  -- After the end of a message: the reader of the next one, without its type.
  unfoldable pub switched :
      List ℕ → Opened R × C → WsConn C R → (List ℕ × Option Error) × WsConn C R
  switched bytes (opened t r, conn) c = ((bytes, none), record c { conn = conn; reader = some r })
  switched bytes (refused e, conn) c = (([], some e), record c { conn = conn })

  unfoldable pub read_done :
      (List ℕ × Option ReadError) × C → WsConn C R → (List ℕ × Option Error) × WsConn C R
  read_done ((bytes, none), conn) c = ((bytes, none), record c { conn = conn })
  read_done ((bytes, some (failed e)), conn) c = ((bytes, some e), record c { conn = conn })
  read_done ((bytes, some eof), conn) c =
      switched bytes (w.next_reader conn) (record c { conn = conn })

  unfoldable pub read_from : R → ℕ → WsConn C R → (List ℕ × Option Error) × WsConn C R
  read_from r n c = read_done (w.read_message r n c.conn) c

  unfoldable pub read_first : ℕ → Opened R × C → WsConn C R → (List ℕ × Option Error) × WsConn C R
  read_first n (opened t r, conn) c =
      read_from r n (record { conn = conn; typ = t; reader = some r })
  read_first n (refused e, conn) c = (([], some e), record c { conn = conn })

  read_open : Option R → ℕ → WsConn C R → (List ℕ × Option Error) × WsConn C R
  read_open none n c = read_first n (w.next_reader c.conn) c
  read_open (some r) n c = read_from r n c

  -- Read, into a buffer of `n` bytes: the bytes that are counted and the error.
  unfoldable pub read : ℕ → WsConn C R → (List ℕ × Option Error) × WsConn C R
  unfolding read_open
  read n c = read_open c.reader n c

  write_done : ℕ → Option Error × C → WsConn C R → (ℕ × Option Error) × WsConn C R
  write_done n (none, conn) c = ((n, none), record c { conn = conn })
  write_done n (some e, conn) c = ((0, some e), record c { conn = conn })

  -- Write
  unfoldable pub write : List ℕ → WsConn C R → (ℕ × Option Error) × WsConn C R
  unfolding write_done
  write b c = write_done (length b) (w.write_message binary_message b c.conn) c

-- SetUpgrade; `none` is nil.
abbrev pub set_upgrade : {U : Type 0} → Option U → U → U
set_upgrade none old = old
set_upgrade (some upgrade) old = upgrade

-- ServeHTTP: the connection that InChan gets, when Upgrade returns one.
abbrev pub serve_http : {C R : Type 0} → Result C → Option (WsConn C R)
serve_http (ok conn) = some (new_ws_conn conn)
serve_http (err x) = none
serve_http (panic x) = none

-- SetDeadline, over SetReadDeadline and SetWriteDeadline of *websocket.Conn
abbrev pub set_deadline :
    {C D : Type 0} → (D → Exec C (Unit {0})) → (D → Exec C (Unit {0})) → D → Exec C (Unit {0})
set_deadline set_read set_write t = set_read t >> set_write t
