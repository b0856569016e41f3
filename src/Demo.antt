-- ===== src/Demo.antt =====
-- demo/client/main.go: a client that sends a login every three seconds and logs what it reads.
use xgame.Common.{
  ℕ, zero, suc, ◌+◌, ◌%◌, ◌^◌, ◌≡◌, refl, ap, Bool, true, false, Option, none, some, String, List,
  [], ◌∷◌, ◌++◌, Eq, if◌then◌else◌,
}
use xgame.Go.{Result, ok, err, panic}
use xgame.Go.Errors.{Error, packet_connect_closed}
use xgame.Go.Fmt.{num, sprintf}
use xgame.Pb.{MsgCommon, Proto, no_common}
use xgame.Packet.Registry.{Registry}
use xgame.Packet.Codec.{Reader, read_limit, read_message, pack_message}
use xgame.Packet.Codec.Framing.{reader}

-- What the client logs: a message, or an error.
pub data Logged (M : Type 0) : Type 0 where
  message : MsgCommon → M → Logged M
  failed : Error → Logged M

repeat : {A : Type 0} → ℕ → A → List A
repeat zero x = []
repeat (suc n) x = x ∷ repeat n x

module _ {T M : Type 0} ⦃e : Eq T⦄ (p : Proto T M) where
  -- One round of the reading goroutine; `none` when it panics.
  read_logged : Result (MsgCommon × M) → Option (Logged M)
  read_logged (ok (common, msg)) = some (message common msg)
  read_logged (err x) = some (failed x)
  read_logged (panic x) = none

  -- The first rounds of its loop, which has no end.
  with_round :
      Option (Logged M) → Option (List (Logged M) × Reader) → Option (List (Logged M) × Reader)
  with_round (some l) (some (logs, r)) = some (l ∷ logs, r)
  with_round (some l) none = none
  with_round none rest = none

  unfoldable pub read_rounds : ℕ → Registry T → Reader → Option (List (Logged M) × Reader)
  unfolding read_logged with_round
  read_rounds zero reg r = some ([], r)
  read_rounds (suc n) reg r =
      let (x, after) = read_message p reg r in with_round (read_logged x) (read_rounds n reg after)

  -- On a connection that is closed the loop logs the same error in every round, and does not end.
  read_rounds-closed :
      (n : ℕ) (reg : Registry T)
      → read_rounds n reg (reader [] none)
        ≡ some (repeat n (failed packet_connect_closed), reader [] none)
  unfolding read_rounds read_message repeat read_limit
  read_rounds-closed zero reg = refl
  read_rounds-closed (suc n) reg =
      ap (with_round (some (failed packet_connect_closed))) (read_rounds-closed n reg)

-- The messages that the process has registered, and what conn.Write has taken.
pub record Client (T : Type 0) : Type 0 where
  pub registry : Registry T
  pub written : List (List ℕ)

-- What a round gets from outside: rand.Int, and the error of conn.Write.
pub record Round : Type 0 where
  pub random : ℕ
  pub refusal : Option Error

module _ {T M : Type 0} ⦃e : Eq T⦄ (p : Proto T M) (creq_login : String → M) where
  -- conn.Write, and whether the loop goes on.
  write_frame : Option Error → List ℕ → Client T → Bool × Client T
  write_frame none bytes c = (true, record c { written = c.written ++ bytes ∷ [] })
  write_frame (some x) bytes c = (false, c)

  write_packed :
      Option Error → Result (MsgCommon × List ℕ) × Registry T → Client T → Bool × Client T
  unfolding write_frame
  write_packed refusal (ok (common, bytes), reg) c =
      write_frame refusal bytes (record c { registry = reg })
  write_packed refusal (err x, reg) c = (false, record c { registry = reg })
  write_packed refusal (panic x, reg) c = (false, record c { registry = reg })

  -- A round of the loop of main
  write_round : ℕ → Round → Client T → Bool × Client T
  unfolding write_packed
  write_round mid round c =
      write_packed round.refusal
        (pack_message p (record no_common { mid = mid })
          (creq_login (sprintf "布什*戈门 %d" (num round.random ∷ []))) c.registry)
        c

  -- The loop of main, for the rounds of a run: the first mid is 1, and mid is a uint32.
  unfoldable pub write_rounds : List Round → ℕ → Client T → Client T
  unfolding write_round
  write_rounds [] mid c = c
  write_rounds (round ∷ rounds) mid c =
      let mid' = (mid + 1) % 2 ^ 32 in
      let (more, after) = write_round mid' round c in
      let rest = write_rounds rounds mid' after in if more then rest else after
