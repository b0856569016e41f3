-- ===== src/Connector/Websocket/Whole.antt =====
-- All the calls of WSConn.Read of ws_connector.go, until one returns an error.
use mathlib.Core.List.{append_assoc}
use xgame.Common.{
  ℕ, suc, ◌+◌, ◌≤◌, ◌<◌, length, arith, ◌≡◌, refl, sym, ◌∙◌, ap, Option, none, some, List, [], ◌∷◌,
  ◌++◌,
}
use xgame.Go.Errors.{Error}
use xgame.Connector.Websocket.{Websocket, WsConn, read}
use xgame.Connector.Websocket.Stream.{
  IsWebsocket, IsRead, goes_on, stops, pending, reads_left, read-IsRead,
}

module _ {C R : Type 0} (w : Websocket C R) where
  abbrev both : List ℕ → (List ℕ × Option Error) × WsConn C R → (List ℕ × Option Error) × WsConn C R
  both bytes ((rest, e), c) = ((bytes ++ rest, e), c)

  and_then :
      Option Error
      → (List ℕ × Option Error) × WsConn C R
      → (List ℕ × Option Error) × WsConn C R
      → (List ℕ × Option Error) × WsConn C R
  and_then none out rest = both out.0.0 rest
  and_then (some e) out rest = out

  -- Calls of Read with buffers of these sizes, until one returns an error.
  unfoldable pub read_all : List ℕ → WsConn C R → (List ℕ × Option Error) × WsConn C R
  unfolding and_then
  read_all [] c = (([], none), c)
  read_all (n ∷ ns) c =
      let out = read w n c in let rest = read_all ns out.1 in and_then out.0.1 out rest

-- Buffers that are not empty.
abbrev pub Positive : List ℕ → Type 0
Positive [] = Unit
Positive (n ∷ ns) = (0 < n) × Positive ns

module _ {C R : Type 0} (w : Websocket C R) (k : IsWebsocket w) where
  later :
      {calls : ℕ} {c c' : WsConn C R} {rest : (List ℕ × Option Error) × WsConn C R} (bytes : List ℕ)
      → pending w k c ≡ bytes ++ pending w k c'
      → 1 + reads_left w k c' ≤ reads_left w k c
      → IsRead w k calls c' rest
      → IsRead w k (suc calls) c (both w bytes rest)
  later bytes split less (goes_on more c'' split' less') =
      goes_on (bytes ++ more) c''
        (split ∙ ap (λ xs. bytes ++ xs) split' ∙ sym (append_assoc bytes more (pending w k c'')))
        (omega (arith, less, less'))
  later bytes split less (stops more rest e c'' split' failure) =
      stops (bytes ++ more) rest e c''
        (split ∙ ap (λ xs. bytes ++ xs) split' ∙ sym (append_assoc bytes more rest)) failure

  more-IsRead :
      {calls : ℕ} {c : WsConn C R} {out rest : (List ℕ × Option Error) × WsConn C R}
      → IsRead w k 1 c out
      → IsRead w k calls out.1 rest
      → IsRead w k (suc calls) c (and_then w out.0.1 out rest)
  unfolding and_then
  more-IsRead (goes_on bytes c' split less) u = later bytes split less u
  more-IsRead (stops bytes rest e c' split failure) u = stops bytes rest e c' split failure

  -- Any calls of Read, with buffers that are not empty, until one returns an error. Either no call does, and then the
  -- bytes that they return are, in order and across the messages, the first of those that were still to come, what is
  -- still to come after them is exactly the rest, and each call has brought the end, which is behind at most
  -- `reads_left` calls, nearer; or the error is one of NextReader or of a reader, and the bytes are the first of those
  -- that were still to come. This is for a websocket whose NextReader opens the messages in order, and whose readers
  -- give their message in order and its end only behind the last byte, and, asked for some, a byte, the end or an
  -- error. Any of them may fail at any time, and may give bytes with the end or with an error.
  pub read_all-pending :
      (ns : List ℕ) (c : WsConn C R) → Positive ns → IsRead w k (length ns) c (read_all w ns c)
  unfolding read_all
  read_all-pending [] c room = goes_on [] c refl (omega arith)
  read_all-pending (n ∷ ns) c (some_room, room) =
      more-IsRead (read-IsRead w k n c some_room) (read_all-pending ns (read w n c).1 room)
